-- ===== src/Common/Bits.antt =====
-- Single bits of a word: how `|=` and `&=` with a one-bit mask, and `&` as a test, read and write
-- them. `bit w k` is bit `k` of `w`, as 0 or 1.
use Prim.Native.Nat.{
  ℕ, zero, suc, ◌+◌, ◌-◌, ◌*◌, ◌/◌, ◌%◌, ◌^◌, ◌≤◌, ◌<◌, min, max, digits, bit_and, bit_or,
  bit_and-bitwise, bit_or-bitwise,
}
use mathlib.Core.Path.{◌≡◌, refl, ap}
use mathlib.Core.Logic.{inl, inr}
use native.Mathlib.Omega.{arith}
use native.Mathlib.Nat.{pow-suc, one-le-pow}
use sysrust.Common.Tests.{if◌then◌else◌, ◌==◌, Bool-cases, ==→eq}

unfoldable pub bit : (w k : ℕ) → ℕ
bit w zero = w % 2
bit w (suc k) = bit (w / 2) k

-- The digits of `a` need no more fuel than `a` itself.
module _ (rest : ℕ → ℕ) (digit : ℕ → ℕ → ℕ) where
  digits_tight : (n k a b : ℕ) → k ≤ n → a ≤ k → digits rest digit k a b ≡ digits rest digit a a b
  digits_tight n zero a b below enough = let none_left : a ≡ 0 = omega arith in rw none_left
  digits_tight n (suc k) zero b below enough = refl
  digits_tight zero (suc k) (suc a) b below enough = absurd (omega arith)
  digits_tight (suc n) (suc k) (suc a) b below enough =
      let half = suc a / 2 in
      let this = digits_tight n k half (b / 2) (omega arith) (omega arith) in
      let that = digits_tight n a half (b / 2) (omega arith) (omega arith) in rw (this, that)

-- The lowest binary digit of a conjunction, and the others.
pub bit_and_low : (v w : ℕ) → bit_and v w ≡ min (v % 2) (w % 2) + 2 * bit_and (v / 2) (w / 2)
bit_and_low zero w = omega (arith, bit_and-bitwise 0 w, bit_and-bitwise 0 (w / 2))
bit_and_low (suc v) w =
    let tight = digits_tight (λ y. 0) min v v (suc v / 2) (w / 2) (omega arith) (omega arith) in
    omega (arith, tight, bit_and-bitwise (suc v) w, bit_and-bitwise (suc v / 2) (w / 2))

pub bit_or_low : (v w : ℕ) → bit_or v w ≡ max (v % 2) (w % 2) + 2 * bit_or (v / 2) (w / 2)
bit_or_low zero w = omega (arith, bit_or-bitwise 0 w, bit_or-bitwise 0 (w / 2))
bit_or_low (suc v) w =
    let tight = digits_tight (λ y. y) max v v (suc v / 2) (w / 2) (omega arith) (omega arith) in
    omega (arith, tight, bit_or-bitwise (suc v) w, bit_or-bitwise (suc v / 2) (w / 2))

pub bit-lt : (w k : ℕ) → bit w k < 2
unfolding bit
bit-lt w zero = omega arith
bit-lt w (suc k) = bit-lt (w / 2) k

-- Every bit of `a & b` is 1 where it is 1 in both.
pub bit-bit_and : (k a b : ℕ) → bit (bit_and a b) k ≡ min (bit a k) (bit b k)
unfolding bit
bit-bit_and zero a b = omega (arith, bit_and_low a b)
bit-bit_and (suc k) a b =
    let half : bit_and a b / 2 ≡ bit_and (a / 2) (b / 2) = omega (arith, bit_and_low a b) in
    rw half (bit-bit_and k (a / 2) (b / 2))

pub bit-bit_or : (k a b : ℕ) → bit (bit_or a b) k ≡ max (bit a k) (bit b k)
unfolding bit
bit-bit_or zero a b = omega (arith, bit_or_low a b)
bit-bit_or (suc k) a b =
    let half : bit_or a b / 2 ≡ bit_or (a / 2) (b / 2) = omega (arith, bit_or_low a b) in
    rw half (bit-bit_or k (a / 2) (b / 2))

pub bit-zero : (k : ℕ) → bit 0 k ≡ 0
unfolding bit
bit-zero zero = refl
bit-zero (suc k) = bit-zero k

-- A word with one bit.
pub bit-pow : (j k : ℕ) → bit (2 ^ k) j ≡ (if j == k then 1 else 0)
unfolding bit
bit-pow zero zero = refl
bit-pow zero (suc k) = ground (arith, pow-suc 2 k)
bit-pow (suc j) zero = ground (arith, bit-zero j)
bit-pow (suc j) (suc k) =
    let half : 2 ^ suc k / 2 ≡ 2 ^ k = omega (arith, pow-suc 2 k) in
    rw half (ground (arith, bit-pow j k))

-- `!x` over `n` bits.
pub bit-not : (n j x : ℕ) → x < 2 ^ n → j < n → bit (2 ^ n - 1 - x) j ≡ 1 - bit x j
unfolding bit
bit-not zero j x small h = absurd (omega arith)
bit-not (suc n) zero x small h = omega (arith, pow-suc 2 n)
bit-not (suc n) (suc j) x small h =
    let half : (2 ^ suc n - 1 - x) / 2 ≡ 2 ^ n - 1 - x / 2 = omega (arith, pow-suc 2 n) in
    rw half (bit-not n j (x / 2) (omega (arith, pow-suc 2 n)) (omega arith))

-- A word of `n` bits is known by them.
pub bits_ext : (n a b : ℕ) → a < 2 ^ n → b < 2 ^ n → ((k : ℕ) → k < n → bit a k ≡ bit b k) → a ≡ b
unfolding bit
bits_ext zero a b p q same = omega arith
bits_ext (suc n) a b p q same =
    let halves =
      bits_ext n (a / 2) (b / 2) (omega (arith, pow-suc 2 n)) (omega (arith, pow-suc 2 n))
        (λ k h. same (suc k) (omega arith)) in
    omega (arith, halves, same 0 (omega arith))

bit_and_zero_fuel : (n a : ℕ) → a ≤ n → bit_and a 0 ≡ 0
bit_and_zero_fuel zero a h = let none_left : a ≡ 0 = omega arith in rw none_left
bit_and_zero_fuel (suc n) a h =
    ground (arith, bit_and_low a 0, bit_and-bitwise 0 0, bit_and_zero_fuel n (a / 2))

bit_and_zero : (a : ℕ) → bit_and a 0 ≡ 0
bit_and_zero a = bit_and_zero_fuel a a (omega arith)

pub bit_and-pow : (k w : ℕ) → bit_and w (2 ^ k) ≡ bit w k * 2 ^ k
unfolding bit
bit_and-pow zero w = omega (arith, bit_and_low w 1, bit_and_zero (w / 2))
bit_and-pow (suc k) w =
    let half : 2 ^ suc k / 2 ≡ 2 ^ k = omega (arith, pow-suc 2 k) in
    let even : 2 ^ suc k % 2 ≡ 0 = omega (arith, pow-suc 2 k) in
    let rest = bit_and-pow k (w / 2) in
    rw (bit_and_low w (2 ^ suc k), half, even, rest)
      (omega (arith, ap (λ (t : ℕ). bit (w / 2) k * t) (pow-suc 2 k)))

-- The test `w & (1 << k) != 0`.
pub bit_and-pow_test : (w k : ℕ) → (bit_and w (2 ^ k) == 0) ≡ (bit w k == 0)
bit_and-pow_test w k = rw bit_and-pow (elim (Bool-cases (bit w k == 0)) [
  | inl off ↦ let z : bit w k ≡ 0 = ==→eq _ 0 off in rw z (ground arith)
  | inr on ↦
      let one : bit w k ≡ 1 = ground (arith, bit-lt w k) in rw one (ground (arith, one-le-pow k 2))
])

pub bit_or-lt : (n a b : ℕ) → a < 2 ^ n → b < 2 ^ n → bit_or a b < 2 ^ n
bit_or-lt zero a b p q = ground arith
bit_or-lt (suc n) a b p q = omega (
  arith,
  pow-suc 2 n,
  bit_or_low a b,
  bit_or-lt n (a / 2) (b / 2) (omega (arith, pow-suc 2 n)) (omega (arith, pow-suc 2 n)),
)

pub bit_and-lt : (n a b : ℕ) → a < 2 ^ n → bit_and a b < 2 ^ n
bit_and-lt zero a b p = ground (arith, bit_and-bitwise 0 b)
bit_and-lt (suc n) a b p =
    omega (
      arith,
      pow-suc 2 n,
      bit_and_low a b,
      bit_and-lt n (a / 2) (b / 2) (omega (arith, pow-suc 2 n)),
    )
