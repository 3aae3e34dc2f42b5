-- ===== src/Rc/Lex/Tokens.antt =====
-- The tokens and the keywords of src/rc/lex.rs.
use sysrust.Common.{ℕ, List, [], ◌∷◌}

abbrev pub tok_eof : ℕ
tok_eof = 0

abbrev pub tok_num : ℕ
tok_num = 1

abbrev pub tok_str : ℕ
tok_str = 2

abbrev pub tok_ident : ℕ
tok_ident = 3

abbrev pub tok_i32 : ℕ
tok_i32 = 4

abbrev pub tok_u8 : ℕ
tok_u8 = 5

abbrev pub tok_void : ℕ
tok_void = 6

abbrev pub tok_if : ℕ
tok_if = 7

abbrev pub tok_else : ℕ
tok_else = 8

abbrev pub tok_while : ℕ
tok_while = 9

abbrev pub tok_for : ℕ
tok_for = 10

abbrev pub tok_loop : ℕ
tok_loop = 11

abbrev pub tok_return : ℕ
tok_return = 12

abbrev pub tok_break : ℕ
tok_break = 13

abbrev pub tok_continue : ℕ
tok_continue = 14

abbrev pub tok_struct : ℕ
tok_struct = 15

abbrev pub tok_enum : ℕ
tok_enum = 16

abbrev pub tok_match : ℕ
tok_match = 17

abbrev pub tok_underscore_pat : ℕ
tok_underscore_pat = 19

abbrev pub tok_static : ℕ
tok_static = 20

abbrev pub tok_const : ℕ
tok_const = 21

abbrev pub tok_type : ℕ
tok_type = 23

abbrev pub tok_u32 : ℕ
tok_u32 = 24

abbrev pub tok_usize : ℕ
tok_usize = 25

abbrev pub tok_bool : ℕ
tok_bool = 26

abbrev pub tok_isize : ℕ
tok_isize = 27

abbrev pub tok_plus : ℕ
tok_plus = 28

abbrev pub tok_minus : ℕ
tok_minus = 29

abbrev pub tok_star : ℕ
tok_star = 30

abbrev pub tok_slash : ℕ
tok_slash = 31

abbrev pub tok_percent : ℕ
tok_percent = 32

abbrev pub tok_amp : ℕ
tok_amp = 33

abbrev pub tok_pipe : ℕ
tok_pipe = 34

abbrev pub tok_caret : ℕ
tok_caret = 35

abbrev pub tok_bang : ℕ
tok_bang = 37

abbrev pub tok_assign : ℕ
tok_assign = 38

abbrev pub tok_lt : ℕ
tok_lt = 39

abbrev pub tok_gt : ℕ
tok_gt = 40

abbrev pub tok_eq : ℕ
tok_eq = 41

abbrev pub tok_neq : ℕ
tok_neq = 42

abbrev pub tok_lte : ℕ
tok_lte = 43

abbrev pub tok_gte : ℕ
tok_gte = 44

abbrev pub tok_and : ℕ
tok_and = 45

abbrev pub tok_or : ℕ
tok_or = 46

abbrev pub tok_lshift : ℕ
tok_lshift = 47

abbrev pub tok_rshift : ℕ
tok_rshift = 48

abbrev pub tok_pluseq : ℕ
tok_pluseq = 49

abbrev pub tok_minuseq : ℕ
tok_minuseq = 50

abbrev pub tok_stareq : ℕ
tok_stareq = 51

abbrev pub tok_slasheq : ℕ
tok_slasheq = 52

abbrev pub tok_lparen : ℕ
tok_lparen = 55

abbrev pub tok_rparen : ℕ
tok_rparen = 56

abbrev pub tok_lbrace : ℕ
tok_lbrace = 57

abbrev pub tok_rbrace : ℕ
tok_rbrace = 58

abbrev pub tok_lbracket : ℕ
tok_lbracket = 59

abbrev pub tok_rbracket : ℕ
tok_rbracket = 60

abbrev pub tok_semi : ℕ
tok_semi = 61

abbrev pub tok_comma : ℕ
tok_comma = 62

abbrev pub tok_colon : ℕ
tok_colon = 64

abbrev pub tok_dot : ℕ
tok_dot = 65

abbrev pub tok_arrow : ℕ
tok_arrow = 66

abbrev pub tok_fn : ℕ
tok_fn = 67

abbrev pub tok_let : ℕ
tok_let = 68

abbrev pub tok_mut : ℕ
tok_mut = 69

abbrev pub tok_true : ℕ
tok_true = 70

abbrev pub tok_false : ℕ
tok_false = 71

abbrev pub tok_as : ℕ
tok_as = 72

abbrev pub tok_fat_arrow : ℕ
tok_fat_arrow = 73

abbrev pub tok_double_dot : ℕ
tok_double_dot = 74

abbrev pub tok_in : ℕ
tok_in = 75

abbrev pub tok_unsafe : ℕ
tok_unsafe = 76

abbrev pub keywords : List (List ℕ × ℕ)
keywords =
    (102 ∷ 110 ∷ [], tok_fn)
    ∷ (108 ∷ 101 ∷ 116 ∷ [], tok_let)
    ∷ (109 ∷ 117 ∷ 116 ∷ [], tok_mut)
    ∷ (105 ∷ 102 ∷ [], tok_if)
    ∷ (101 ∷ 108 ∷ 115 ∷ 101 ∷ [], tok_else)
    ∷ (119 ∷ 104 ∷ 105 ∷ 108 ∷ 101 ∷ [], tok_while)
    ∷ (102 ∷ 111 ∷ 114 ∷ [], tok_for)
    ∷ (108 ∷ 111 ∷ 111 ∷ 112 ∷ [], tok_loop)
    ∷ (114 ∷ 101 ∷ 116 ∷ 117 ∷ 114 ∷ 110 ∷ [], tok_return)
    ∷ (98 ∷ 114 ∷ 101 ∷ 97 ∷ 107 ∷ [], tok_break)
    ∷ (99 ∷ 111 ∷ 110 ∷ 116 ∷ 105 ∷ 110 ∷ 117 ∷ 101 ∷ [], tok_continue)
    ∷ (115 ∷ 116 ∷ 114 ∷ 117 ∷ 99 ∷ 116 ∷ [], tok_struct)
    ∷ (101 ∷ 110 ∷ 117 ∷ 109 ∷ [], tok_enum)
    ∷ (109 ∷ 97 ∷ 116 ∷ 99 ∷ 104 ∷ [], tok_match)
    ∷ (115 ∷ 116 ∷ 97 ∷ 116 ∷ 105 ∷ 99 ∷ [], tok_static)
    ∷ (99 ∷ 111 ∷ 110 ∷ 115 ∷ 116 ∷ [], tok_const)
    ∷ (116 ∷ 121 ∷ 112 ∷ 101 ∷ [], tok_type)
    ∷ (117 ∷ 110 ∷ 115 ∷ 97 ∷ 102 ∷ 101 ∷ [], tok_unsafe)
    ∷ (105 ∷ 110 ∷ [], tok_in)
    ∷ (97 ∷ 115 ∷ [], tok_as)
    ∷ (105 ∷ 51 ∷ 50 ∷ [], tok_i32)
    ∷ (117 ∷ 56 ∷ [], tok_u8)
    ∷ (117 ∷ 51 ∷ 50 ∷ [], tok_u32)
    ∷ (98 ∷ 111 ∷ 111 ∷ 108 ∷ [], tok_bool)
    ∷ (117 ∷ 115 ∷ 105 ∷ 122 ∷ 101 ∷ [], tok_usize)
    ∷ (105 ∷ 115 ∷ 105 ∷ 122 ∷ 101 ∷ [], tok_isize)
    ∷ (116 ∷ 114 ∷ 117 ∷ 101 ∷ [], tok_true)
    ∷ (102 ∷ 97 ∷ 108 ∷ 115 ∷ 101 ∷ [], tok_false)
    ∷ (118 ∷ 111 ∷ 105 ∷ 100 ∷ [], tok_void)
    ∷ (95 ∷ [], tok_underscore_pat)
    ∷ []
