-- ===== src/Fat16/Names.antt =====
-- The 8.3 names of src/fat16.rs: there and back.
use mathlib.Core.List.{append-nil}
use sysrust.Common.{
  ℕ, zero, suc, ◌+◌, ◌≡◌, ◌≢◌, ◌≤◌, ◌<◌, true, false, List, [], ◌∷◌, ◌++◌, map, ◌==◌, if◌then◌else◌,
  Table, store, length, arith, refl, ap, ◌∙◌,
}
use sysrust.Fat16.{
  upper, base_loop, to_dot, extension, extension_loop, name_to_83, trimmed, name_from_83,
}

-- `xs` at `j` and behind it.
put : Table ℕ → (j : ℕ) → List ℕ → Table ℕ
put out j [] = out
put out j (x ∷ xs) = put (store out j x) (j + 1) xs

-- Neither a space nor a dot.
abbrev pub AllPlain : List ℕ → Type 0
AllPlain [] = Unit {0}
AllPlain (c ∷ cs) = (c ≢ b' ') × (c ≢ b'.') × AllPlain cs

abbrev AllInk : List ℕ → Type 0
AllInk [] = Unit {0}
AllInk (c ∷ cs) = (c ≢ b' ') × AllInk cs

AllPlain-ink : (cs : List ℕ) → AllPlain cs → AllInk (map upper cs)
AllPlain-ink [] h = tt
AllPlain-ink (c ∷ cs) (ink, no_dot, rest) = (ground arith, AllPlain-ink cs rest)

length-upper : (cs : List ℕ) → length (map upper cs) ≡ length cs
length-upper [] = refl
length-upper (c ∷ cs) = ap (λ n. suc n) (length-upper cs)

put-below : (xs : List ℕ) (out : Table ℕ) (j i : ℕ) → i < j → put out j xs i ≡ out i
unfolding put
put-below [] out j i lt = refl
put-below (x ∷ xs) out j i lt =
    put-below xs (store out j x) (j + 1) i (omega (arith, lt)) ∙ ground (arith, lt)

trimmed_ext :
    (n i : ℕ) (t t' : Table ℕ)
    → ((k : ℕ) → i ≤ k → k < i + n → t k ≡ t' k)
    → trimmed n i t ≡ trimmed n i t'
unfolding trimmed
trimmed_ext zero i t t' same = refl
trimmed_ext (suc n) i t t' same =
    rw
      (
        trimmed,
        same i (omega arith) (omega arith),
        trimmed_ext n (i + 1) t t' (λ k lo hi. same k (omega (arith, lo)) (omega (arith, hi))),
      )
      refl

trimmed_blank :
    (n i : ℕ) (t : Table ℕ) → ((k : ℕ) → i ≤ k → k < i + n → t k ≡ b' ') → trimmed n i t ≡ []
unfolding trimmed
trimmed_blank zero i t blank = refl
trimmed_blank (suc n) i t blank =
    let e : (t i == b' ') ≡ true = ground (arith, blank i) in
    rw (trimmed, e)
      (trimmed_blank n (i + 1) t (λ k lo hi. blank k (omega (arith, lo)) (omega (arith, hi))))

trimmed-put :
    (xs : List ℕ) (n j : ℕ) (out : Table ℕ)
    → AllInk xs
    → length xs ≤ n
    → ((k : ℕ) → j ≤ k → k < j + n → out k ≡ b' ')
    → trimmed n j (put out j xs) ≡ xs
unfolding put trimmed
trimmed-put [] n j out ink short blank = trimmed_blank n j out blank
trimmed-put (x ∷ xs) zero j out ink short blank = absurd (omega (arith, short))
trimmed-put (x ∷ xs) (suc n) j out (ink, rest) short blank =
    let here : put (store out j x) (j + 1) xs j ≡ x =
      put-below xs (store out j x) (j + 1) j (omega arith) ∙ ground arith in
    let e : (x == b' ') ≡ false = ground (arith, ink) in
    let more =
      trimmed-put xs n (j + 1) (store out j x) rest (omega (arith, short))
        (λ k lo hi. ground (arith, blank k, lo, hi)) in
    rw (trimmed, here, e, more) refl

base_loop-put :
    (cs rest : List ℕ) (k j : ℕ) (out : Table ℕ)
    → AllPlain cs
    → length cs ≤ k
    → (base_loop k j (cs ++ b'.' ∷ rest) out ≡ (b'.' ∷ rest, put out j (map upper cs)))
      × (base_loop k j cs out ≡ ([], put out j (map upper cs)))
unfolding put
base_loop-put [] rest zero j out plain short = (refl, refl)
base_loop-put [] rest (suc k) j out plain short = (refl, refl)
base_loop-put (c ∷ cs) rest zero j out plain short = absurd (omega (arith, short))
base_loop-put (c ∷ cs) rest (suc k) j out (ink, no_dot, plain) short =
    let e : (c == b'.') ≡ false = ground (arith, no_dot) in
    let more =
      base_loop-put cs rest k (j + 1) (store out j (upper c)) plain (omega (arith, short)) in
    (rw e more.0, rw e more.1)

extension_loop-put :
    (cs : List ℕ) (k j : ℕ) (out : Table ℕ)
    → length cs ≤ k
    → extension_loop k j cs out ≡ put out j (map upper cs)
unfolding put
extension_loop-put [] zero j out short = refl
extension_loop-put [] (suc k) j out short = refl
extension_loop-put (c ∷ cs) zero j out short = absurd (omega (arith, short))
extension_loop-put (c ∷ cs) (suc k) j out short =
    extension_loop-put cs k (j + 1) (store out j (upper c)) (omega (arith, short))

abbrev blank : Table ℕ
blank i = b' '

put-above : (xs : List ℕ) (out : Table ℕ) (j i : ℕ) → j + length xs ≤ i → put out j xs i ≡ out i
unfolding put
put-above [] out j i le = refl
put-above (x ∷ xs) out j i le =
    put-above xs (store out j x) (j + 1) i (omega (arith, le)) ∙ ground (arith, le)

put_two :
    (xs ys : List ℕ)
    → AllInk xs
    → AllInk ys
    → length xs ≤ 8
    → length ys ≤ 3
    → (trimmed 8 0 (put (put blank 0 xs) 8 ys) ≡ xs)
      × (trimmed 3 8 (put (put blank 0 xs) 8 ys) ≡ ys)
put_two xs ys ink ink' short short' = (
  trimmed_ext 8 0 (put (put blank 0 xs) 8 ys) (put blank 0 xs)
        (λ k lo hi. put-below ys (put blank 0 xs) 8 k (omega (arith, hi)))
      ∙ trimmed-put xs 8 0 blank ink short (λ k lo hi. refl),
  trimmed-put ys 3 8 (put blank 0 xs) ink' short'
      (λ k lo hi. put-above xs blank 0 k (omega (arith, lo, short))),
)

from_put_two :
    (xs ys : List ℕ) (y : ℕ)
    → AllInk xs
    → AllInk (y ∷ ys)
    → length xs ≤ 8
    → length (y ∷ ys) ≤ 3
    → name_from_83 (put (put blank 0 xs) 8 (y ∷ ys)) ≡ xs ++ b'.' ∷ y ∷ ys
unfolding put
from_put_two xs ys y ink ink' short short' =
    let (base, ext) = put_two xs (y ∷ ys) ink ink' short short' in
    let at : put (put blank 0 xs) 8 (y ∷ ys) 8 ≡ y =
      put-below ys (store (put blank 0 xs) 8 y) 9 8 (omega arith) ∙ ground arith in
    let e : (put (put blank 0 xs) 8 (y ∷ ys) 8 == b' ') ≡ false = ground (arith, at, ink'.0) in
    ap
      (λ b.
        trimmed 8 0 (put (put blank 0 xs) 8 (y ∷ ys))
        ++ (if b then [] else b'.' ∷ trimmed 3 8 (put (put blank 0 xs) 8 (y ∷ ys))))
      e
    ∙ rw (base, ext) refl

from_put : (xs : List ℕ) → AllInk xs → length xs ≤ 8 → name_from_83 (put blank 0 xs) ≡ xs ++ []
from_put xs ink short =
    let at = put-above xs blank 0 8 (omega (arith, short)) in
    let e : (put blank 0 xs 8 == b' ') ≡ true = ground (arith, at) in
    ap
      (λ b. trimmed 8 0 (put blank 0 xs) ++ (if b then [] else b'.' ∷ trimmed 3 8 (put blank 0 xs)))
      e
    ∙ ap (λ ys. ys ++ []) (trimmed-put xs 8 0 blank ink short (λ k lo hi. refl))

-- For a base name of at most 8 bytes and an extension of one to 3 bytes, none of them a space or a
-- dot, name_from_83 after name_to_83 gives the base name with its letters in upper case, and the
-- base name, the dot and the extension with theirs.
pub name_from_83-name_to_83 :
    (base ext : List ℕ) (c : ℕ)
    → AllPlain base
    → AllPlain (c ∷ ext)
    → length base ≤ 8
    → length (c ∷ ext) ≤ 3
    → (name_from_83 (name_to_83 base) ≡ map upper base)
      × (name_from_83 (name_to_83 (base ++ b'.' ∷ c ∷ ext))
          ≡ map upper base ++ b'.' ∷ map upper (c ∷ ext))
name_from_83-name_to_83 base ext c plain plain' short short' =
    let (with_dot, without) = base_loop-put base (c ∷ ext) 8 0 blank plain short in
    let ink = AllPlain-ink base plain in
    let short_up : length (map upper base) ≤ 8 = omega (arith, length-upper base, short) in
    let after = λ (r : List ℕ × Table ℕ). name_from_83 (extension (to_dot r.0) r.1) in
    let ext_loop = extension_loop-put (c ∷ ext) 3 8 (put blank 0 (map upper base)) short' in
    (
      ap after without ∙ from_put (map upper base) ink short_up ∙ append-nil (map upper base),
      ap after with_dot
          ∙ ap name_from_83 ext_loop
          ∙ from_put_two (map upper base) (map upper ext) (upper c) ink
              (AllPlain-ink (c ∷ ext) plain') short_up (omega (arith, length-upper ext, short')),
    )
