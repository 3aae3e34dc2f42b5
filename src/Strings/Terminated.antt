-- ===== src/Strings/Terminated.antt =====
-- Bytes in memory with a terminator behind them, and the loops of src/string.rs that look for it.
use sysrust.Common.{
  ℕ, zero, suc, ◌+◌, ◌≡◌, ◌≢◌, ◌≤◌, ◌<◌, false, ◌==◌, some, List, [], ◌∷◌, Table, arith, ap, ◌∙◌,
  length,
}
use sysrust.Strings.{strlen, end_of}

-- The bytes from `s` on, none of them 0, and the terminator.
abbrev pub IsString : Table ℕ → (s : ℕ) → List ℕ → Type 0
IsString mem s [] = mem s ≡ 0
IsString mem s (x ∷ xs) = (mem s ≡ x) × ((x ≢ 0) × IsString mem (s + 1) xs)

pub strlen-length :
    (xs : List ℕ) (fuel len s : ℕ) (mem : Table ℕ)
    → IsString mem (s + len) xs
    → length xs < fuel
    → strlen fuel len s mem ≡ some (len + length xs)
unfolding strlen
strlen-length xs zero len s mem h enough = absurd (omega (arith, enough))
strlen-length [] (suc fuel) len s mem h enough =
    let e : len ≡ len + 0 = omega arith in rw (strlen, h) (ap some e)
strlen-length (x ∷ xs) (suc fuel) len s mem (at, (nz, h)) enough =
    let e : len + 1 + length xs ≡ len + suc (length xs) = omega arith in
    let next : s + (len + 1) ≡ s + len + 1 = omega arith in
    let rest = strlen-length xs fuel (len + 1) s mem (rw next h) (omega (arith, enough)) in
    let go : (x == 0) ≡ false = ground arith in rw (strlen, at, go) (rest ∙ ap some e)

pub end_of-length :
    (xs : List ℕ) (fuel d : ℕ) (mem : Table ℕ)
    → IsString mem d xs
    → length xs < fuel
    → end_of fuel d mem ≡ some (d + length xs)
unfolding end_of
end_of-length xs zero d mem h enough = absurd (omega (arith, enough))
end_of-length [] (suc fuel) d mem h enough =
    let e : d ≡ d + 0 = omega arith in rw (end_of, h) (ap some e)
end_of-length (x ∷ xs) (suc fuel) d mem (at, (nz, h)) enough =
    let e : d + 1 + length xs ≡ d + suc (length xs) = omega arith in
    let rest = end_of-length xs fuel (d + 1) mem h (omega (arith, enough)) in
    let go : (x == 0) ≡ false = ground arith in rw (end_of, at, go) (rest ∙ ap some e)

-- A string is read from the bytes up to its terminator only.
pub IsString-same :
    (xs : List ℕ) (s : ℕ) (mem mem' : Table ℕ)
    → ((a : ℕ) → s ≤ a → a ≤ s + length xs → mem' a ≡ mem a)
    → IsString mem s xs
    → IsString mem' s xs
IsString-same [] s mem mem' same h = same s (omega arith) (omega arith) ∙ h
IsString-same (x ∷ xs) s mem mem' same (at, (nz, h)) = (
  same s (omega arith) (omega arith) ∙ at,
  (nz, IsString-same xs (s + 1) mem mem' (λ a lo hi. same a (omega arith) (omega arith)) h),
)
