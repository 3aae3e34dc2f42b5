-- ===== src/Rc/Lex/Progress.antt =====
-- Every loop of src/rc/lex.rs reads on, one character after the other.
use sysrust.Common.{
  ℕ, zero, suc, ◌+◌, ◌-◌, ◌≡◌, ◌≤◌, false, ◌&&◌, List, [], ◌∷◌, ◌==◌, length, arith, refl, ap, ◌∙◌,
  sym, Bool-cases, Option-cases, inl, inr,
}
use sysrust.Strings.{isdigit}
use sysrust.Rc.Lex.{
  Cursor, counted, advance, skip_block, skip_line, decimal_loop, hex_digit, hex_loop, is_word,
  word_loop, string_loop, shifted,
}

-- `count` calls of next_char.
abbrev pub advances : (count : ℕ) → Cursor → Cursor
advances zero s = s
advances (suc n) s = advances n (advance s)

-- The cursor got from one place to the other by calls of next_char, none of them at the end.
pub record Reads (s s' : Cursor) : Type 0 where
  pub count : ℕ
  pub moved : s' ≡ advances count s
  pub left : length s'.rest + count ≡ length s.rest

pub Reads-refl : (s : Cursor) → Reads s s
Reads-refl s = record { count = 0; moved = refl; left = omega arith }

advances-add : (m n : ℕ) (s : Cursor) → advances (m + n) s ≡ advances n (advances m s)
advances-add zero n s = let e : 0 + n ≡ n = omega arith in rw e refl
advances-add (suc m) n s =
    let e : suc m + n ≡ suc (m + n) = omega arith in rw e (advances-add m n (advance s))

pub Reads-trans : (s s1 s2 : Cursor) → Reads s s1 → Reads s1 s2 → Reads s s2
Reads-trans s s1 s2 a b = record {
  count = a.count + b.count;
  moved = b.moved ∙ ap (λ c. advances b.count c) a.moved ∙ sym (advances-add a.count b.count s);
  left = omega (arith, a.left, b.left);
}

-- Over one character.
pub Reads-over :
    (c : ℕ) (cs : List ℕ) (line : ℕ) (s : Cursor)
    → Reads (record { rest = cs; line = counted c line }) s
    → Reads (record { rest = c ∷ cs; line = line }) s
Reads-over c cs line s r = record {
  count = suc r.count;
  moved = r.moved;
  left = omega (arith, r.left);
}

pub Reads-shorter : (s s' : Cursor) → Reads s s' → length s'.rest ≤ length s.rest
Reads-shorter s s' r = omega (arith, r.left)

advance_from :
    (rest : List ℕ) (line : ℕ)
    → let s : Cursor = record { rest = rest; line = line } in Reads s (advance s)
advance_from [] line = Reads-refl (record { rest = []; line = line })
advance_from (c ∷ cs) line =
    Reads-over c cs line (record { rest = cs; line = counted c line })
      (Reads-refl (record { rest = cs; line = counted c line }))

pub advance-Reads : (s : Cursor) → Reads s (advance s)
advance-Reads s = advance_from s.rest s.line

pub skip_block-Reads :
    (cs : List ℕ) (line : ℕ) → Reads (record { rest = cs; line = line }) (skip_block cs line)
unfolding skip_block
skip_block-Reads [] line = Reads-refl (record { rest = []; line = line })
skip_block-Reads (c ∷ []) line =
    Reads-over c [] line (record { rest = []; line = counted c line })
      (Reads-refl (record { rest = []; line = counted c line }))
skip_block-Reads (c ∷ d ∷ ds) line =
    let more =
      Reads-over c (d ∷ ds) line (skip_block (d ∷ ds) (counted c line))
        (skip_block-Reads (d ∷ ds) (counted c line)) in
    elim (Bool-cases ((c == 42) && (d == 47))) [
      | inr f ↦ rw (skip_block, f) more
      | inl t ↦
          let star : (c == 10) ≡ false = ground arith in
          let slash : (d == 10) ≡ false = ground arith in
          let end : Cursor = record { rest = ds; line = line } in
          rw (skip_block, t)
            (Reads-over c (d ∷ ds) line end
              (rw star (Reads-over d ds line end (rw slash (Reads-refl end)))))
    ]

pub skip_line-Reads :
    (cs : List ℕ) (line : ℕ) → Reads (record { rest = cs; line = line }) (skip_line cs line)
unfolding skip_line
skip_line-Reads [] line = Reads-refl (record { rest = []; line = line })
skip_line-Reads (c ∷ cs) line = elim (Bool-cases (c == 10)) [
  | inl t ↦ rw (skip_line, t) (Reads-refl (record { rest = c ∷ cs; line = line }))
  | inr f ↦
      rw (skip_line, f) (Reads-over c cs line (skip_line cs line) (rw f (skip_line-Reads cs line)))
]

pub decimal_loop-Reads :
    (cs : List ℕ) (line val : ℕ)
    → Reads (record { rest = cs; line = line }) (decimal_loop cs line val).1
unfolding decimal_loop
decimal_loop-Reads [] line val = Reads-refl (record { rest = []; line = line })
decimal_loop-Reads (c ∷ cs) line val =
    let val' = shifted 10 val (c - 48) in
    elim (Bool-cases (isdigit c)) [
      | inl t ↦
          rw (decimal_loop, t)
            (Reads-over c cs line (decimal_loop cs (counted c line) val').1
              (decimal_loop-Reads cs (counted c line) val'))
      | inr f ↦ rw (decimal_loop, f) (Reads-refl (record { rest = c ∷ cs; line = line }))
    ]

pub hex_loop-Reads :
    (cs : List ℕ) (line val : ℕ)
    → Reads (record { rest = cs; line = line }) (hex_loop cs line val).1
unfolding hex_loop
hex_loop-Reads [] line val = Reads-refl (record { rest = []; line = line })
hex_loop-Reads (c ∷ cs) line val = elim (Option-cases (hex_digit c)) [
  | inl e ↦ rw (hex_loop, e) (Reads-refl (record { rest = c ∷ cs; line = line }))
  | inr (d, e) ↦
      rw (hex_loop, e)
        (Reads-over c cs line (hex_loop cs (counted c line) (shifted 16 val d)).1
          (hex_loop-Reads cs (counted c line) (shifted 16 val d)))
]

pub word_loop-Reads :
    (cs : List ℕ) (line room : ℕ)
    → Reads (record { rest = cs; line = line }) (word_loop cs line room).1
unfolding word_loop
word_loop-Reads [] line room = Reads-refl (record { rest = []; line = line })
word_loop-Reads (c ∷ cs) line room = elim (Bool-cases (is_word c)) [
  | inl t ↦
      rw (word_loop, t)
        (Reads-over c cs line (word_loop cs (counted c line) (room - 1)).1
          (word_loop-Reads cs (counted c line) (room - 1)))
  | inr f ↦ rw (word_loop, f) (Reads-refl (record { rest = c ∷ cs; line = line }))
]

pub string_loop-Reads :
    (cs : List ℕ) (line room : ℕ)
    → Reads (record { rest = cs; line = line }) (string_loop cs line room).1
unfolding string_loop
string_loop-Reads [] line room = Reads-refl (record { rest = []; line = line })
string_loop-Reads (c ∷ []) line room = elim (Bool-cases (c == 34)) [
  | inl t ↦ rw (string_loop, t) (Reads-refl (record { rest = c ∷ []; line = line }))
  | inr f ↦
      rw (string_loop, f)
        (Reads-over c [] line (record { rest = []; line = counted c line })
          (Reads-refl (record { rest = []; line = counted c line })))
]
string_loop-Reads (c ∷ d ∷ ds) line room = elim (Bool-cases (c == 34)) [
  | inl t ↦ rw (string_loop, t) (Reads-refl (record { rest = c ∷ d ∷ ds; line = line }))
  | inr f ↦ elim (Bool-cases (c == 92)) [
    | inr g ↦
        rw (string_loop, f, g)
          (Reads-over c (d ∷ ds) line (string_loop (d ∷ ds) (counted c line) (room - 1)).1
            (string_loop-Reads (d ∷ ds) (counted c line) (room - 1)))
    | inl g ↦
        let backslash : (c == 10) ≡ false = ground arith in
        let end = (string_loop ds (counted d line) (room - 1)).1 in
        rw (string_loop, f, g)
          (Reads-over c (d ∷ ds) line end (
            rw backslash
              (Reads-over d ds line end (string_loop-Reads ds (counted d line) (room - 1)))))
  ]
]
