-- ===== src/Rc/Lex/Operators.antt =====
-- The operators of src/rc/lex.rs, and the public calls of the lexer.
use sysrust.Common.{
  ℕ, Bool, false, ◌||◌, not, Option, none, some, List, [], ◌∷◌, ◌==◌, if◌then◌else◌,
}
use sysrust.Strings.{isdigit, isalpha}
use sysrust.Rc.Lex.{
  Token, Cursor, peek_char, advance, skip_ws, token, char_literal, number, identifier,
  string_literal,
}
use sysrust.Rc.Lex.Tokens.{
  tok_eof, tok_plus, tok_minus, tok_star, tok_slash, tok_percent, tok_amp, tok_pipe, tok_caret,
  tok_bang, tok_assign, tok_lt, tok_gt, tok_eq, tok_neq, tok_lte, tok_gte, tok_and, tok_or,
  tok_lshift, tok_rshift, tok_pluseq, tok_minuseq, tok_stareq, tok_slasheq, tok_lparen, tok_rparen,
  tok_lbrace, tok_rbrace, tok_lbracket, tok_rbracket, tok_semi, tok_comma, tok_colon, tok_dot,
  tok_arrow, tok_fat_arrow, tok_double_dot,
}

-- One token when the next character is `x`, which is read, another otherwise.
abbrev pub either : (x long short : ℕ) → Cursor → ℕ × Cursor
either x long short s = if peek_char s == x then (long, advance s) else (short, s)

abbrev pub either_of : (x long y longer short : ℕ) → Cursor → ℕ × Cursor
either_of x long y longer short s =
    if peek_char s == x then (long, advance s) else either y longer short s

-- The token of a single character, or TOK_EOF for an unexpected one.
abbrev pub single : (c : ℕ) → ℕ
single c =
    if c == 37
    then tok_percent
    else if c == 94
    then tok_caret
    else if c == 40
    then tok_lparen
    else if c == 41
    then tok_rparen
    else if c == 123
    then tok_lbrace
    else if c == 125
    then tok_rbrace
    else if c == 91
    then tok_lbracket
    else if c == 93
    then tok_rbracket
    else if c == 59
    then tok_semi
    else if c == 44
    then tok_comma
    else if c == 58
    then tok_colon
    else tok_eof

-- The match on a character already read; `s` is behind it.
unfoldable pub operator : (c : ℕ) → Cursor → ℕ × Cursor
operator c s =
    if c == 43
    then either 61 tok_pluseq tok_plus s
    else if c == 45
    then either_of 62 tok_arrow 61 tok_minuseq tok_minus s
    else if c == 42
    then either 61 tok_stareq tok_star s
    else if c == 47
    then either 61 tok_slasheq tok_slash s
    else if c == 38
    then either 38 tok_and tok_amp s
    else if c == 124
    then either 124 tok_or tok_pipe s
    else if c == 33
    then either 61 tok_neq tok_bang s
    else if c == 61
    then either_of 62 tok_fat_arrow 61 tok_eq tok_assign s
    else if c == 60
    then either_of 61 tok_lte 60 tok_lshift tok_lt s
    else if c == 62
    then either_of 61 tok_gte 62 tok_rshift tok_gt s
    else if c == 46
    then either 46 tok_double_dot tok_dot s
    else (single c, s)

-- SRC, POS and CUR_LINE; CUR_TOK; LEX_ERROR_FLAG.
pub record Lexer : Type 0 where
  pub cursor : Cursor
  pub cur_tok : Token
  pub lex_error_flag : Bool

abbrev pub init : (source : List ℕ) → Lexer
init source = record {
  cursor = record { rest = source; line = 1 };
  cur_tok = token tok_eof 0 [] 0;
  lex_error_flag = false;
}

-- The rest of `next` after the spaces: the token, the cursor, and whether a character is unexpected.
unfoldable pub scan_token : Cursor → Token × Cursor × Bool
scan_token s =
    let c = peek_char s in
    let kept : Token × Cursor → Token × Cursor × Bool = λ r. (r.0, r.1, false) in
    let (tok, after) = operator c (advance s) in
    let symbol : Token × Cursor × Bool = (token tok 0 [] s.line, after, tok == tok_eof) in
    if c == 39
    then kept (char_literal s.line s)
    else if isdigit c
    then kept (number s.line s)
    else if isalpha c || (c == 95)
    then kept (identifier s.line s)
    else if c == 34
    then kept (string_literal s.line s)
    else symbol

-- `none` is out of fuel.
unfoldable pub next : (fuel : ℕ) → Lexer → Option Lexer
next fuel l = elim (skip_ws fuel l.cursor) [
  | none ↦ none
  | some s ↦
      let (tok, after, unexpected) = scan_token s in
      elim s.rest [
        | [] ↦ some (record l { cursor = s; cur_tok = token tok_eof 0 [] s.line })
        | c ∷ cs ↦ some (record l {
          cursor = after;
          cur_tok = tok;
          lex_error_flag = l.lex_error_flag || unexpected;
        })
      ]
]

-- Without the message.
unfoldable pub expect : (fuel expected_type : ℕ) → Lexer → Option Lexer
unfolding next
expect fuel expected_type l =
    next fuel
      (record l { lex_error_flag = l.lex_error_flag || not (l.cur_tok.tok_type == expected_type) })
