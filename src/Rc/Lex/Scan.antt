-- ===== src/Rc/Lex/Scan.antt =====
-- One call of the lexer of src/rc/lex.rs.
use sysrust.Common.{
  ℕ, zero, suc, ◌-◌, ◌≡◌, ◌<◌, Bool, true, false, ◌&&◌, ◌||◌, Option, some, List, [], ◌∷◌, ◌==◌,
  if◌then◌else◌, length, arith, refl, Bool-cases, Option-cases, inl, inr, ◌⊎◌,
}
use sysrust.Strings.{isspace, isdigit, isalpha}
use sysrust.Rc.Lex.{
  Cursor, counted, peek_char, advance, follows, skip_block, skip_line, skip_one, skip_ws,
  decimal_loop, hex_loop, is_word, word_loop, string_loop, closed, char_literal, number, identifier,
  string_literal, keyword_of, shifted, token,
}
use sysrust.Rc.Lex.Tokens.{
  tok_eof, keywords, tok_amp, tok_and, tok_arrow, tok_assign, tok_bang, tok_dot, tok_double_dot,
  tok_eq, tok_fat_arrow, tok_gt, tok_gte, tok_lshift, tok_lt, tok_lte, tok_minus, tok_minuseq,
  tok_neq, tok_or, tok_pipe, tok_plus, tok_pluseq, tok_rshift, tok_slash, tok_slasheq, tok_star,
  tok_stareq,
}
use sysrust.Rc.Lex.Operators.{Lexer, operator, either, either_of, scan_token, next}
use sysrust.Rc.Lex.Progress.{
  Reads, Reads-refl, Reads-trans, Reads-over, advance-Reads, skip_block-Reads, skip_line-Reads,
  decimal_loop-Reads, hex_loop-Reads, word_loop-Reads, string_loop-Reads,
}

-- Read on, by one character at least.
abbrev pub ReadsSome : Cursor → Cursor → Type 0
ReadsSome s s' = Reads s s' × (length s'.rest < length s.rest)

advanced_some :
    (c : ℕ) (cs : List ℕ) (line : ℕ) (s' : Cursor)
    → Reads (record { rest = cs; line = counted c line }) s'
    → ReadsSome (record { rest = c ∷ cs; line = line }) s'
advanced_some c cs line s' r = (Reads-over c cs line s' r, omega (arith, r.left))

closed-Reads : (quote : ℕ) (s : Cursor) → Reads s (closed quote s)
closed-Reads quote s = elim (Bool-cases (peek_char s == quote)) [
  | inl t ↦ rw t (advance-Reads s)
  | inr f ↦ rw f (Reads-refl s)
]

to_end : (s end s' : Cursor) → some end ≡ some s' → Reads s end → Reads s s'
to_end s end s' same r = let e : end ≡ s' = cc same in rw e at r

skip_from :
    (rest : List ℕ) (line : ℕ) (s' : Cursor)
    → skip_one (record { rest = rest; line = line }) ≡ some s'
    → ReadsSome (record { rest = rest; line = line }) s'
unfolding skip_one
skip_from [] line s' e = absurd (cc e)
skip_from (c ∷ cs) line s' e =
    let s1 : Cursor = record { rest = cs; line = counted c line } in
    let inside = advance s1 in
    elim (Bool-cases (isspace c)) [
      | inl space ↦
          let same : some s1 ≡ some s' = rw (skip_one, space) at e in
          advanced_some c cs line s' (to_end s1 s1 s' same (Reads-refl s1))
      | inr no_space ↦ elim (Bool-cases ((c == 47) && follows 42 (c ∷ cs))) [
        | inl block ↦
            let end = skip_block inside.rest inside.line in
            let same : some end ≡ some s' = rw (skip_one, no_space, block) at e in
            advanced_some c cs line s' (
              to_end s1 end s' same (
                Reads-trans s1 inside end (advance-Reads s1)
                  (skip_block-Reads inside.rest inside.line)))
        | inr no_block ↦ elim (Bool-cases ((c == 47) && follows 47 (c ∷ cs))) [
          | inl comment ↦
              let end = skip_line inside.rest inside.line in
              let same : some end ≡ some s' = rw (skip_one, no_space, no_block, comment) at e in
              advanced_some c cs line s' (
                to_end s1 end s' same (
                  Reads-trans s1 inside end (advance-Reads s1)
                    (skip_line-Reads inside.rest inside.line)))
          | inr no_comment ↦ absurd (cc (rw (skip_one, no_space, no_block, no_comment) at e))
        ]
      ]
    ]

either-Reads : (x long short : ℕ) (s : Cursor) → Reads s (either x long short s).1
either-Reads x long short s = elim (Bool-cases (peek_char s == x)) [
  | inl t ↦ rw t (advance-Reads s)
  | inr f ↦ rw f (Reads-refl s)
]

either_of-Reads :
    (x long y longer short : ℕ) (s : Cursor) → Reads s (either_of x long y longer short s).1
either_of-Reads x long y longer short s = elim (Bool-cases (peek_char s == x)) [
  | inl t ↦ rw t (advance-Reads s)
  | inr f ↦ rw f (either-Reads y longer short s)
]

if-Reads :
    (b : Bool) (s : Cursor) (t f : ℕ × Cursor)
    → Reads s t.1
    → Reads s f.1
    → Reads s (if b then t else f).1
if-Reads true s t f ht hf = ht
if-Reads false s t f ht hf = hf

operator-Reads : (c : ℕ) (s : Cursor) → Reads s (operator c s).1
unfolding operator
operator-Reads c s = if-Reads (c == 43) s _ _ (either-Reads 61 tok_pluseq tok_plus s) (
    if-Reads (c == 45) s _ _ (either_of-Reads 62 tok_arrow 61 tok_minuseq tok_minus s) (
      if-Reads (c == 42) s _ _ (either-Reads 61 tok_stareq tok_star s) (
        if-Reads (c == 47) s _ _ (either-Reads 61 tok_slasheq tok_slash s) (
          if-Reads (c == 38) s _ _ (either-Reads 38 tok_and tok_amp s) (
            if-Reads (c == 124) s _ _ (either-Reads 124 tok_or tok_pipe s) (
              if-Reads (c == 33) s _ _ (either-Reads 61 tok_neq tok_bang s) (
                if-Reads (c == 61) s _ _ (either_of-Reads 62 tok_fat_arrow 61 tok_eq tok_assign s) (
                  if-Reads (c == 60) s _ _ (either_of-Reads 61 tok_lte 60 tok_lshift tok_lt s) (
                    if-Reads (c == 62) s _ _ (either_of-Reads 61 tok_gte 62 tok_rshift tok_gt s) (
                      if-Reads (c == 46) s _ _ (either-Reads 46 tok_double_dot tok_dot s)
                        (Reads-refl s)))))))))))

skip_one-ReadsSome : (s s' : Cursor) → skip_one s ≡ some s' → ReadsSome s s'
skip_one-ReadsSome s s' e = skip_from s.rest s.line s' e

-- The loop over spaces and comments ends.
pub skip_ws-Reads :
    (fuel : ℕ) (s : Cursor)
    → length s.rest < fuel
    → (s' : Cursor) × (skip_ws fuel s ≡ some s') × Reads s s'
unfolding skip_ws
skip_ws-Reads zero s enough = absurd (omega (arith, enough))
skip_ws-Reads (suc fuel) s enough = elim (Option-cases (skip_one s)) [
  | inl e ↦ (s, rw (skip_ws, e) refl, Reads-refl s)
  | inr (s1, e) ↦
      let (r, shorter) = skip_one-ReadsSome s s1 e in
      let (s2, ends, r2) = skip_ws-Reads fuel s1 (omega (arith, shorter, enough)) in
      (s2, rw (skip_ws, e) ends, Reads-trans s s1 s2 r r2)
]

char_literal-ReadsSome :
    (c : ℕ) (cs : List ℕ) (at line : ℕ)
    → ReadsSome
        (record { rest = c ∷ cs; line = line })
        (char_literal at (record { rest = c ∷ cs; line = line })).1
unfolding char_literal
char_literal-ReadsSome c cs at line =
    let s1 : Cursor = record { rest = cs; line = counted c line } in
    let s2 = advance s1 in
    let to2 = advance-Reads s1 in
    elim (Bool-cases (peek_char s1 == 92)) [
      | inl t ↦
          let s3 = advance s2 in
          rw (char_literal, t)
            (advanced_some c cs line (closed 39 s3) (
              Reads-trans s1 s2 (closed 39 s3) to2
                (Reads-trans s2 s3 (closed 39 s3) (advance-Reads s2) (closed-Reads 39 s3))))
      | inr f ↦
          rw (char_literal, f)
            (advanced_some c cs line (closed 39 s2)
              (Reads-trans s1 s2 (closed 39 s2) to2 (closed-Reads 39 s2)))
    ]

number-ReadsSome :
    (c : ℕ) (cs : List ℕ) (at line : ℕ)
    → isdigit c ≡ true
    → ReadsSome
        (record { rest = c ∷ cs; line = line })
        (number at (record { rest = c ∷ cs; line = line })).1
unfolding number decimal_loop
number-ReadsSome c cs at line digit =
    let s1 : Cursor = record { rest = cs; line = counted c line } in
    let inside = advance s1 in
    elim (Bool-cases ((c == 48) && (follows 120 (c ∷ cs) || follows 88 (c ∷ cs)))) [
      | inl t ↦
          let end = (hex_loop inside.rest inside.line 0).1 in
          rw (number, t)
            (advanced_some c cs line end (
              Reads-trans s1 inside end (advance-Reads s1)
                (hex_loop-Reads inside.rest inside.line 0)))
      | inr f ↦
          let end = (decimal_loop cs (counted c line) (shifted 10 0 (c - 48))).1 in
          rw (number, f, decimal_loop, digit)
            (advanced_some c cs line end
              (decimal_loop-Reads cs (counted c line) (shifted 10 0 (c - 48))))
    ]

identifier-ReadsSome :
    (c : ℕ) (cs : List ℕ) (at line : ℕ)
    → is_word c ≡ true
    → ReadsSome
        (record { rest = c ∷ cs; line = line })
        (identifier at (record { rest = c ∷ cs; line = line })).1
unfolding identifier word_loop
identifier-ReadsSome c cs at line first =
    let end = (word_loop cs (counted c line) 126).1 in
    let word = (word_loop (c ∷ cs) line 127).0 in
    let read = advanced_some c cs line end (word_loop-Reads cs (counted c line) 126) in
    let there : (word_loop (c ∷ cs) line 127).1 ≡ end = rw (word_loop, first) refl in
    elim (Option-cases (keyword_of word keywords)) [
      | inl e ↦ rw (identifier, e, there) read
      | inr (tok, e) ↦ rw (identifier, e, there) read
    ]

string_literal-ReadsSome :
    (c : ℕ) (cs : List ℕ) (at line : ℕ)
    → ReadsSome
        (record { rest = c ∷ cs; line = line })
        (string_literal at (record { rest = c ∷ cs; line = line })).1
unfolding string_literal
string_literal-ReadsSome c cs at line =
    let s1 : Cursor = record { rest = cs; line = counted c line } in
    let after = (string_loop cs (counted c line) 127).1 in
    advanced_some c cs line (closed 34 after) (
      Reads-trans s1 after (closed 34 after) (string_loop-Reads cs (counted c line) 127)
        (closed-Reads 34 after))

scan_token-ReadsSome :
    (c : ℕ) (cs : List ℕ) (line : ℕ)
    → ReadsSome
        (record { rest = c ∷ cs; line = line })
        (scan_token (record { rest = c ∷ cs; line = line })).1
unfolding scan_token
scan_token-ReadsSome c cs line = elim (Bool-cases (c == 39)) [
  | inl t ↦ rw (scan_token, t) (char_literal-ReadsSome c cs line line)
  | inr a ↦ elim (Bool-cases (isdigit c)) [
    | inl t ↦ rw (scan_token, a, t) (number-ReadsSome c cs line line t)
    | inr b ↦ elim (Bool-cases (isalpha c || (c == 95))) [
      | inl t ↦ rw (scan_token, a, b, t) (identifier-ReadsSome c cs line line (ground (arith, t)))
      | inr d ↦ elim (Bool-cases (c == 34)) [
        | inl t ↦ rw (scan_token, a, b, d, t) (string_literal-ReadsSome c cs line line)
        | inr e ↦
            let s1 : Cursor = record { rest = cs; line = counted c line } in
            rw (scan_token, a, b, d, e)
              (advanced_some c cs line (operator c s1).1 (operator-Reads c s1))
      ]
    ]
  ]
]

-- A call of next.
pub record Lexed (l : Lexer) (o : Option Lexer) : Type 0 where
  pub after : Lexer
  pub ends : o ≡ some after
  pub reads : Reads l.cursor after.cursor
  pub progress :
      ((after.cur_tok.tok_type ≡ tok_eof) × (after.cursor.rest ≡ []))
      ⊎ (length after.cursor.rest < length l.cursor.rest)

next-found-Lexed :
    (fuel : ℕ) (l : Lexer) (rest : List ℕ) (line : ℕ)
    → skip_ws fuel l.cursor ≡ some (record { rest = rest; line = line })
    → Reads l.cursor (record { rest = rest; line = line })
    → Lexed l (next fuel l)
unfolding next
next-found-Lexed fuel l [] line e r =
    rw (next, e)
      (record {
        after = record l {
          cursor = record { rest = []; line = line };
          cur_tok = token tok_eof 0 [] line;
        };
        ends = refl;
        reads = r;
        progress = inl (refl, refl);
      })
next-found-Lexed fuel l (c ∷ cs) line e r =
    let s : Cursor = record { rest = c ∷ cs; line = line } in
    let (more, shorter) = scan_token-ReadsSome c cs line in
    rw (next, e)
      (record {
        after = record l {
          cursor = (scan_token s).1;
          cur_tok = (scan_token s).0;
          lex_error_flag = l.lex_error_flag || (scan_token s).2;
        };
        ends = refl;
        reads = Reads-trans l.cursor s (scan_token s).1 r more;
        progress = inr (omega (arith, shorter, r.left));
      })

-- With fuel above the number of characters left, a call of next ends; the cursor is then where
-- some number of calls of next_char, none of them at the end of the source, lead it; and either
-- the token is TOK_EOF and nothing is left, or at least one character was read.
pub next-Lexed : (fuel : ℕ) (l : Lexer) → length l.cursor.rest < fuel → Lexed l (next fuel l)
next-Lexed fuel l enough =
    let (s, e, r) = skip_ws-Reads fuel l.cursor enough in next-found-Lexed fuel l s.rest s.line e r
