-- ===== src/Pmm/Regions.antt =====
-- Which pages the region loops of pmm.rs free and reserve.
use sysrust.Common.{
  ℕ, ◌+◌, ◌-◌, ◌/◌, ◌%◌, ◌^◌, ◌≤◌, ◌<◌, ◌≡◌, Bool, true, false, ◌&&◌, arith, refl, ◌==◌, ltb, leb,
  if◌then◌else◌, for_range, for_range_inv,
}
use sysrust.Pmm.{
  Pmm, bitmap_test, free_one, use_one, max_pages, mark_region_free, mark_region_used, page_size,
  clamp,
}
use sysrust.Pmm.Bitmap.{IsWords, bitmap_clear-IsWords, test-set, test-clear}

pub test-free_one :
    (q p : ℕ) (s : Pmm)
    → IsWords s.bitmap
    → bitmap_test q (free_one p s).bitmap ≡ (if q == p then false else bitmap_test q s.bitmap)
unfolding free_one
test-free_one q p s w = ground (arith, test-clear q p s.bitmap w, bitmap_test q s.bitmap)

pub test-use_one :
    (q p : ℕ) (s : Pmm)
    → bitmap_test q (use_one p s).bitmap ≡ (if q == p then true else bitmap_test q s.bitmap)
unfolding use_one
test-use_one q p s = ground (arith, test-set q p s.bitmap)

-- The pages `lo` up to `i` have been written with `v`.
abbrev pub within : (lo i q : ℕ) → Bool
within lo i q = leb lo q && ltb q i

free_one-IsWords : (p : ℕ) (s : Pmm) → IsWords s.bitmap → IsWords (free_one p s).bitmap
unfolding free_one
free_one-IsWords p s w i = ground (arith, w i, bitmap_clear-IsWords p s.bitmap w i)

free_range :
    (n lo : ℕ) (s : Pmm)
    → IsWords s.bitmap
    → (q : ℕ)
    → bitmap_test q (for_range free_one n lo s).bitmap
      ≡ (if within lo (lo + n) q then false else bitmap_test q s.bitmap)
free_range n lo s w =
    (for_range_inv free_one
      (λ i (s' : Pmm).
        (lo ≤ i)
        × IsWords s'.bitmap
        × ((q : ℕ)
            → bitmap_test q s'.bitmap ≡ (if within lo i q then false else bitmap_test q s.bitmap)))
      n lo (lo + n) refl s (omega arith, w, λ q. ground arith)
      (λ i s' ih. (
        omega arith,
        free_one-IsWords i s' ih.1,
        λ q. ground (arith, ih.2 q, test-free_one q i s' ih.1),
      ))).2

use_range :
    (n lo : ℕ) (s : Pmm) (q : ℕ)
    → bitmap_test q (for_range use_one n lo s).bitmap
      ≡ (if within lo (lo + n) q then true else bitmap_test q s.bitmap)
use_range n lo s =
    (for_range_inv use_one
      (λ i (s' : Pmm).
        (lo ≤ i)
        × ((q : ℕ)
            → bitmap_test q s'.bitmap ≡ (if within lo i q then true else bitmap_test q s.bitmap)))
      n lo (lo + n) refl s (omega arith, λ q. ground arith)
      (λ i s' ih. (omega arith, λ q. ground (arith, ih.1 q, test-use_one q i s')))).1

module _ (words : ℕ) where
  -- For a bitmap of 32-bit words and a region that ends below 16 TiB, mark_region_free frees
  -- exactly the pages in range from the one that holds the first byte of the region up to but not
  -- including the one that holds its end, and leaves the others as they were.
  pub mark_region_free_pages :
      (base length : ℕ) (s : Pmm)
      → IsWords s.bitmap
      → base + length < 2 ^ 44
      → (q : ℕ) → q < max_pages words
      → bitmap_test q (mark_region_free words base length s).bitmap ≡ (
          if within (base / page_size) ((base + length) / page_size) q
          then false
          else bitmap_test q s.bitmap)
  unfolding mark_region_free
  mark_region_free_pages base length s w small q h =
      let start : base / page_size % 2 ^ 32 ≡ base / page_size = omega arith in
      let end : (base + length) % 2 ^ 64 / page_size % 2 ^ 32 ≡ (base + length) / page_size =
        omega arith in
      rw (mark_region_free, start, end)
        (ground (
          arith,
          free_range (clamp words ((base + length) / page_size) - base / page_size)
              (base / page_size) s w q,
        ))

  -- A region below 16 TiB: exactly the pages that hold a byte of it, or of the rest of its last page,
  -- are used afterwards; the others are as they were.
  pub mark_region_used_pages :
      (base length : ℕ) (s : Pmm)
      → base + length + page_size < 2 ^ 44
      → (q : ℕ) → q < max_pages words
      → bitmap_test q (mark_region_used words base length s).bitmap ≡ (
          if within (base / page_size) ((base + length + page_size - 1) / page_size) q
          then true
          else bitmap_test q s.bitmap)
  unfolding mark_region_used
  mark_region_used_pages base length s small q h =
      let start : base / page_size % 2 ^ 32 ≡ base / page_size = omega arith in
      let end : (base + length + page_size - 1) % 2 ^ 64 / page_size % 2 ^ 32
          ≡ (base + length + page_size - 1) / page_size =
        omega arith in
      rw (mark_region_used, start, end)
        (ground (
          arith,
          use_range (clamp words ((base + length + page_size - 1) / page_size) - base / page_size)
              (base / page_size) s q,
        ))
