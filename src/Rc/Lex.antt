-- ===== src/Rc/Lex.antt =====
-- The lexer of src/rc/lex.rs. The cursor is what is left of the source, which POS and SRC_LEN bound, and
-- CUR_LINE. An i32 is its bits. The loop over spaces and comments runs on fuel.
pub mod Operators
pub mod Progress
pub mod Tests
pub mod Tokens
pub mod Scan
use sysrust.Common.{
  ℕ, zero, suc, ◌+◌, ◌-◌, ◌*◌, ◌%◌, ◌^◌, Bool, true, false, ◌&&◌, ◌||◌, not, Option, none, some,
  List, [], ◌∷◌, ◌==◌, ltb, leb, if◌then◌else◌,
}
use sysrust.Strings.{isspace, isdigit, isalpha, isalnum}
use sysrust.Vfs.{same_name}
use sysrust.Rc.Lex.Tokens.{tok_num, tok_str, tok_ident, keywords}

pub record Token : Type 0 where
  pub tok_type : ℕ
  pub num_val : ℕ
  pub str_val : List ℕ
  pub line : ℕ

pub record Cursor : Type 0 where
  pub rest : List ℕ
  pub line : ℕ

-- CUR_LINE after a character.
abbrev pub counted : (c line : ℕ) → ℕ
counted c line = if c == 10 then line + 1 else line

abbrev pub peek_char : Cursor → ℕ
peek_char s = elim s.rest [ [] ↦ 0 | c ∷ cs ↦ c ]

-- next_char, without its result, which is peek_char before.
abbrev pub advance : Cursor → Cursor
advance s = elim s.rest [ [] ↦ s | c ∷ cs ↦ record { rest = cs; line = counted c s.line } ]

-- POS + 1 < SRC_LEN, and the character there is `x`.
abbrev pub follows : (x : ℕ) → List ℕ → Bool
follows x [] = false
follows x (c ∷ []) = false
follows x (c ∷ d ∷ ds) = d == x

-- Up to the end of a block comment.
unfoldable pub skip_block : List ℕ → (line : ℕ) → Cursor
skip_block [] line = record { rest = []; line = line }
skip_block (c ∷ []) line = record { rest = []; line = counted c line }
skip_block (c ∷ d ∷ ds) line =
    let more = skip_block (d ∷ ds) (counted c line) in
    if (c == 42) && (d == 47) then record { rest = ds; line = line } else more

-- Up to the newline that ends a line comment.
unfoldable pub skip_line : List ℕ → (line : ℕ) → Cursor
skip_line [] line = record { rest = []; line = line }
skip_line (c ∷ cs) line =
    let more = skip_line cs (counted c line) in
    if c == 10 then record { rest = c ∷ cs; line = line } else more

-- One round of `skip_ws`: nothing when the loop ends.
unfoldable pub skip_one : Cursor → Option Cursor
unfolding skip_block skip_line
skip_one s =
    let inside = advance (advance s) in
    if isspace (peek_char s)
    then some (advance s)
    else if (peek_char s == 47) && follows 42 s.rest
    then some (skip_block inside.rest inside.line)
    else if (peek_char s == 47) && follows 47 s.rest
    then some (skip_line inside.rest inside.line)
    else none

unfoldable pub skip_ws : (fuel : ℕ) → Cursor → Option Cursor
unfolding skip_one
skip_ws zero s = none
skip_ws (suc fuel) s = elim (skip_one s) [ none ↦ some s | some s' ↦ skip_ws fuel s' ]

-- The character after a backslash.
abbrev pub escaped : (c : ℕ) → ℕ
escaped c = if c == 110 then 10 else if c == 116 then 9 else if c == 48 then 0 else c

-- val * base + digit, on the bits of an i32.
abbrev pub shifted : (base val digit : ℕ) → ℕ
shifted base val digit = (val * base + digit) % 2 ^ 32

unfoldable pub decimal_loop : List ℕ → (line val : ℕ) → ℕ × Cursor
decimal_loop [] line val = (val, record { rest = []; line = line })
decimal_loop (c ∷ cs) line val =
    let more = decimal_loop cs (counted c line) (shifted 10 val (c - 48)) in
    if isdigit c then more else (val, record { rest = c ∷ cs; line = line })

-- The value of a hexadecimal digit.
abbrev pub hex_digit : ℕ → Option ℕ
hex_digit h =
    if leb 48 h && leb h 57
    then some (h - 48)
    else if leb 97 h && leb h 102
    then some (h - 97 + 10)
    else if leb 65 h && leb h 70
    then some (h - 65 + 10)
    else none

unfoldable pub hex_loop : List ℕ → (line val : ℕ) → ℕ × Cursor
hex_loop [] line val = (val, record { rest = []; line = line })
hex_loop (c ∷ cs) line val = elim (hex_digit c) [
  | none ↦ (val, record { rest = c ∷ cs; line = line })
  | some d ↦ hex_loop cs (counted c line) (shifted 16 val d)
]

abbrev pub is_word : ℕ → Bool
is_word c = isalnum c || (c == 95)

-- The loop of an identifier; `room` bytes of str_val are left.
unfoldable pub word_loop : List ℕ → (line room : ℕ) → List ℕ × Cursor
word_loop [] line room = ([], record { rest = []; line = line })
word_loop (c ∷ cs) line room =
    let (word, s) = word_loop cs (counted c line) (room - 1) in
    if is_word c
    then (if room == 0 then word else c ∷ word, s)
    else ([], record { rest = c ∷ cs; line = line })

abbrev pub pushed : (room c : ℕ) → List ℕ × Cursor → List ℕ × Cursor
pushed room c r = (if room == 0 then r.0 else c ∷ r.0, r.1)

-- The loop of a string literal.
unfoldable pub string_loop : List ℕ → (line room : ℕ) → List ℕ × Cursor
string_loop [] line room = ([], record { rest = []; line = line })
string_loop (c ∷ []) line room =
    if c == 34
    then ([], record { rest = c ∷ []; line = line })
    else pushed room (if c == 92 then 0 else c) ([], record { rest = []; line = counted c line })
string_loop (c ∷ d ∷ ds) line room =
    if c == 34 then ([], record { rest = c ∷ d ∷ ds; line = line }) else elim (c == 92) [
      | true ↦ pushed room (escaped d) (string_loop ds (counted d line) (room - 1))
      | false ↦ pushed room c (string_loop (d ∷ ds) (counted c line) (room - 1))
    ]

-- The first keyword that is the word.
unfoldable pub keyword_of : (word : List ℕ) → List (List ℕ × ℕ) → Option ℕ
keyword_of word [] = none
keyword_of word ((key, tok) ∷ rest) =
    let later = keyword_of word rest in if same_name word key then some tok else later

-- The closing quote, when it is there.
abbrev pub closed : (quote : ℕ) → Cursor → Cursor
closed quote s = if peek_char s == quote then advance s else s

abbrev pub token : (tok_type num_val : ℕ) → (str_val : List ℕ) → (line : ℕ) → Token
token tok_type num_val str_val line = record {
  tok_type = tok_type;
  num_val = num_val;
  str_val = str_val;
  line = line;
}

unfoldable pub char_literal : (line : ℕ) → Cursor → Token × Cursor
char_literal line s =
    let s1 = advance s in
    let s2 = advance s1 in
    let plain : Token × Cursor = (token tok_num (peek_char s1) [] line, closed 39 s2) in
    let escape : Token × Cursor =
      (token tok_num (escaped (peek_char s2)) [] line, closed 39 (advance s2)) in
    if peek_char s1 == 92 then escape else plain

unfoldable pub number : (line : ℕ) → Cursor → Token × Cursor
unfolding decimal_loop hex_loop
number line s =
    let inside = advance (advance s) in
    let (val, after) = decimal_loop s.rest s.line 0 in
    let (hex_val, hex_after) = hex_loop inside.rest inside.line 0 in
    if (peek_char s == 48) && (follows 120 s.rest || follows 88 s.rest)
    then (token tok_num hex_val [] line, hex_after)
    else (token tok_num val [] line, after)

unfoldable pub identifier : (line : ℕ) → Cursor → Token × Cursor
unfolding word_loop keyword_of
identifier line s =
    let (word, after) = word_loop s.rest s.line 127 in
    elim (keyword_of word keywords) [
      | none ↦ (token tok_ident 0 word line, after)
      | some tok ↦ (token tok 0 word line, after)
    ]

unfoldable pub string_literal : (line : ℕ) → Cursor → Token × Cursor
unfolding string_loop
string_literal line s =
    let inside = advance s in
    let (text, after) = string_loop inside.rest inside.line 127 in
    (token tok_str 0 text line, closed 34 after)
