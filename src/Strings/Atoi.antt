-- ===== src/Strings/Atoi.antt =====
-- atoi of src/string.rs on the text of a number.
use sysrust.Common.{
  ℕ, zero, suc, ◌+◌, ◌-◌, ◌*◌, ◌%◌, ◌^◌, ◌≡◌, ◌<◌, true, false, ◌==◌, some, List, [], ◌∷◌, ◌++◌,
  map, Table, arith, refl, length,
}
use sysrust.Strings.{isspace, isdigit, skip_space, digits, negated, atoi}
use sysrust.Strings.Terminated.{IsString}

-- The number of a list of decimal digits, after the number `r`.
abbrev pub decimal : (r : ℕ) → List ℕ → ℕ
decimal r [] = r
decimal r (d ∷ ds) = decimal (r * 10 + d) ds

abbrev pub AreDigits : List ℕ → Type 0
AreDigits [] = Unit {0}
AreDigits (d ∷ ds) = (d < 10) × AreDigits ds

abbrev pub AreSpaces : List ℕ → Type 0
AreSpaces [] = Unit {0}
AreSpaces (c ∷ cs) = (isspace c ≡ true) × AreSpaces cs

abbrev pub text_of : List ℕ → List ℕ
text_of ds = map (λ d. 48 + d) ds

pub data Sign : Type 0 where
  unsigned : Sign
  plus : Sign
  minus : Sign

abbrev pub sign_text : Sign → List ℕ
sign_text unsigned = []
sign_text plus = 43 ∷ []
sign_text minus = 45 ∷ []

abbrev pub signed : Sign → ℕ → ℕ
signed unsigned n = n % 2 ^ 32
signed plus n = n % 2 ^ 32
signed minus n = negated (n % 2 ^ 32)

digits-decimal :
    (ds : List ℕ) (fuel s r : ℕ) (mem : Table ℕ)
    → AreDigits ds
    → IsString mem s (text_of ds)
    → length ds < fuel
    → digits fuel s (r % 2 ^ 32) mem ≡ some (decimal r ds % 2 ^ 32)
unfolding digits
digits-decimal ds zero s r mem small h enough = absurd (omega (arith, enough))
digits-decimal [] (suc fuel) s r mem small h enough = rw (digits, h) refl
digits-decimal (d ∷ ds) (suc fuel) s r mem (small, smaller) (at, (nz, h)) enough =
    let digit : isdigit (48 + d) ≡ true = ground arith in
    let next : (r % 2 ^ 32 * 10 + (48 + d - 48)) % 2 ^ 32 ≡ (r * 10 + d) % 2 ^ 32 = omega arith in
    let rest = digits-decimal ds fuel (s + 1) (r * 10 + d) mem smaller h (omega (arith, enough)) in
    rw (digits, at, digit, next) rest

-- The text behind the spaces.
behind :
    (ws rest : List ℕ) (s : ℕ) (mem : Table ℕ)
    → IsString mem s (ws ++ rest)
    → IsString mem (s + length ws) rest
behind [] rest s mem h = let e : s + 0 ≡ s = omega arith in rw e h
behind (c ∷ cs) rest s mem (at, (nz, h)) =
    let e : s + suc (length cs) ≡ s + 1 + length cs = omega arith in
    rw e (behind cs rest (s + 1) mem h)

skip_space-end :
    (ws rest : List ℕ) (fuel s : ℕ) (mem : Table ℕ)
    → AreSpaces ws
    → IsString mem s (ws ++ rest)
    → isspace (mem (s + length ws)) ≡ false
    → length ws < fuel
    → skip_space fuel s mem ≡ some (s + length ws)
unfolding skip_space
skip_space-end ws rest zero s mem spaces h stop enough = absurd (omega (arith, enough))
skip_space-end [] rest (suc fuel) s mem spaces h stop enough =
    let e : s + 0 ≡ s = omega arith in rw e (rw (skip_space, rw e at stop) refl)
skip_space-end (c ∷ cs) rest (suc fuel) s mem (space, spaces) (at, (nz, h)) stop enough =
    let e : s + suc (length cs) ≡ s + 1 + length cs = omega arith in
    let r =
      skip_space-end cs rest fuel (s + 1) mem spaces h (rw e at stop) (omega (arith, enough)) in
    rw e (rw (skip_space, at, space) r)

-- A sign, a digit or the terminator is no space.
not_space :
    (sign : Sign) (ds : List ℕ) (p : ℕ) (mem : Table ℕ)
    → AreDigits ds
    → IsString mem p (sign_text sign ++ text_of ds)
    → isspace (mem p) ≡ false
not_space unsigned [] p mem small h = rw h refl
not_space unsigned (d ∷ ds) p mem small h = rw (h.0) (ground (arith, small.0))
not_space plus ds p mem small h = rw (h.0) refl
not_space minus ds p mem small h = rw (h.0) refl

-- The first byte of an unsigned number is no sign.
not_sign :
    (ds : List ℕ) (p : ℕ) (mem : Table ℕ)
    → AreDigits ds
    → IsString mem p (text_of ds)
    → ((mem p == 45) ≡ false) × ((mem p == 43) ≡ false)
not_sign [] p mem small h = rw h (refl, refl)
not_sign (d ∷ ds) p mem small h = rw (h.0) (ground (arith, small.0), ground (arith, small.0))

-- On a string of spaces, an optional sign and decimal digits, with fuel above the numbers of
-- spaces and of digits, atoi ends with the 32 low bits of the number that the text says, as a
-- wrapping i32.
pub atoi-signed :
    (ws : List ℕ) (sign : Sign) (ds : List ℕ) (fuel s : ℕ) (mem : Table ℕ)
    → AreSpaces ws
    → AreDigits ds
    → IsString mem s (ws ++ (sign_text sign ++ text_of ds))
    → length ws < fuel
    → length ds < fuel
    → atoi fuel s mem ≡ some (signed sign (decimal 0 ds))
unfolding atoi
atoi-signed ws unsigned ds fuel s mem spaces small h ew ed =
    let p = s + length ws in
    let text = behind ws (text_of ds) s mem h in
    let found =
      skip_space-end ws (text_of ds) fuel s mem spaces h (not_space unsigned ds p mem small text)
        ew in
    let (m, q) = not_sign ds p mem small text in
    rw (atoi, found, m, q) (digits-decimal ds fuel p 0 mem small text ed)
atoi-signed ws plus ds fuel s mem spaces small h ew ed =
    let p = s + length ws in
    let text = behind ws (43 ∷ text_of ds) s mem h in
    let found =
      skip_space-end ws (43 ∷ text_of ds) fuel s mem spaces h (not_space plus ds p mem small text)
        ew in
    rw (atoi, found, text.0) (digits-decimal ds fuel (p + 1) 0 mem small (text.1.1) ed)
atoi-signed ws minus ds fuel s mem spaces small h ew ed =
    let p = s + length ws in
    let text = behind ws (45 ∷ text_of ds) s mem h in
    let found =
      skip_space-end ws (45 ∷ text_of ds) fuel s mem spaces h (not_space minus ds p mem small text)
        ew in
    rw (atoi, found, text.0, digits-decimal ds fuel (p + 1) 0 mem small (text.1.1) ed) refl
