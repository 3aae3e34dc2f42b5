-- ===== src/Pmm/Bitmap.antt =====
-- The bitmap of pmm.rs as a set of used pages: what each write does to every test.
use native.Mathlib.Nat.{pow-le-pow_right}
use sysrust.Common.{
  ℕ, ◌/◌, ◌%◌, ◌^◌, ◌<◌, ◌≡◌, true, false, not, arith, ◌==◌, if◌then◌else◌, Table, ap,
}
use sysrust.Common.Bits.{
  bit, bit-bit_and, bit-bit_or, bit-pow, bit-not, bit-lt, bit_and-pow_test, bit_or-lt, bit_and-lt,
}
use sysrust.Pmm.{bitmap_set, bitmap_clear, bitmap_test, not32}

-- Every word of the table is a 32-bit word.
abbrev pub IsWords : Table ℕ → Type 0
IsWords b = (i : ℕ) → b i < 2 ^ 32

pub bitmap_test-bit : (p : ℕ) (b : Table ℕ) → bitmap_test p b ≡ not (bit (b (p / 32)) (p % 32) == 0)
unfolding bitmap_test
bitmap_test-bit p b = ap not (bit_and-pow_test (b (p / 32)) (p % 32))

pow_small : (k : ℕ) → k < 32 → 2 ^ k < 2 ^ 32
pow_small k h = omega (arith, pow-le-pow_right {n = 2} (omega arith) {i = k} {j = 31} (omega arith))

pub bitmap_set-IsWords : (p : ℕ) (b : Table ℕ) → IsWords b → IsWords (bitmap_set p b)
unfolding bitmap_set
bitmap_set-IsWords p b w i = ground (
  arith,
  w i,
  bit_or-lt 32 (b (p / 32)) (2 ^ (p % 32)) (w (p / 32)) (pow_small (p % 32) (omega arith)),
)

pub bitmap_clear-IsWords : (p : ℕ) (b : Table ℕ) → IsWords b → IsWords (bitmap_clear p b)
unfolding bitmap_clear
bitmap_clear-IsWords p b w i =
    ground (arith, w i, bit_and-lt 32 (b (p / 32)) (not32 (2 ^ (p % 32))) (w (p / 32)))

-- Setting a page's bit marks that page and no other.
pub test-set :
    (q p : ℕ) (b : Table ℕ)
    → bitmap_test q (bitmap_set p b) ≡ (if q == p then true else bitmap_test q b)
unfolding bitmap_set
test-set q p b =
    rw (bitmap_test-bit q (bitmap_set p b), bitmap_test-bit q b)
      (ground (
        arith,
        bit-bit_or (q % 32) (b (p / 32)) (2 ^ (p % 32)),
        bit-pow (q % 32) (p % 32),
        bit-lt (b (p / 32)) (q % 32),
      ))

-- Clearing a page's bit frees that page and no other.
pub test-clear :
    (q p : ℕ) (b : Table ℕ)
    → IsWords b
    → bitmap_test q (bitmap_clear p b) ≡ (if q == p then false else bitmap_test q b)
unfolding bitmap_clear
test-clear q p b w =
    rw (bitmap_test-bit q (bitmap_clear p b), bitmap_test-bit q b)
      (ground (
        arith,
        bit-bit_and (q % 32) (b (p / 32)) (not32 (2 ^ (p % 32))),
        bit-not 32 (q % 32) (2 ^ (p % 32)) (pow_small (p % 32) (omega arith)) (omega arith),
        bit-pow (q % 32) (p % 32),
        bit-lt (b (p / 32)) (q % 32),
      ))
