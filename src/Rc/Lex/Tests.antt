-- ===== src/Rc/Lex/Tests.antt =====
-- Runs of the lexer of src/rc/lex.rs.
use sysrust.Common.{ℕ, ◌≡◌, Option, some, none, List, [], ◌∷◌, arith, refl}
use sysrust.Rc.Lex.{
  Token, skip_ws, skip_one, skip_block, hex_loop, word_loop, keyword_of, number, identifier,
}
use sysrust.Rc.Lex.Tokens.{tok_fn, tok_rshift}
use sysrust.Rc.Lex.Operators.{Lexer, init, next, scan_token, operator}
use sysrust.Rc.Lex.Scan.{Lexed, next-Lexed}

abbrev token_of : Option Lexer → Token
token_of none = (init []).cur_tok
token_of (some l) = l.cur_tok

-- "fn", after a comment of two lines
abbrev commented : List ℕ
commented = 47 ∷ 42 ∷ 10 ∷ 42 ∷ 47 ∷ 32 ∷ 102 ∷ 110 ∷ 40 ∷ []

keyword_on_line_two :
    ((token_of (next 20 (init commented))).tok_type ≡ tok_fn)
    × ((token_of (next 20 (init commented))).line ≡ 2)
unfolding next skip_ws skip_one skip_block scan_token identifier word_loop keyword_of
keyword_on_line_two = (refl, refl)

-- "0x1F"
hex_number : (token_of (next 20 (init (48 ∷ 120 ∷ 49 ∷ 70 ∷ [])))).num_val ≡ 31
unfolding next skip_ws skip_one scan_token number hex_loop
hex_number = refl

-- ">>="
shift : (token_of (next 20 (init (62 ∷ 62 ∷ 61 ∷ [])))).tok_type ≡ tok_rshift
unfolding next skip_ws skip_one scan_token operator
shift = refl

next-Lexed_example : Lexed (init commented) (next 20 (init commented))
next-Lexed_example = next-Lexed 20 (init commented) (omega arith)
