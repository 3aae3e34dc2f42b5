-- ===== src/Pmm/Counting.antt =====
-- FREE_PAGES of pmm.rs counts the clear bits, through every operation on one page and every region.
use sysrust.Common.{
  ℕ, ◌+◌, ◌-◌, ◌/◌, ◌%◌, ◌^◌, ◌≤◌, ◌<◌, ◌≡◌, inl, inr, Bool, false, not, arith, refl, ◌==◌, leb,
  Table, Bool-cases, for_range, for_range_inv, count_from, count_from_gain, count_from-le,
}
use sysrust.Pmm.{
  Pmm, bitmap_set, bitmap_clear, bitmap_test, free_one, use_one, free_page, max_pages,
  mark_region_free, mark_region_used, reserve_range, page_size, clamp,
}
use sysrust.Pmm.Bitmap.{IsWords, bitmap_set-IsWords, bitmap_clear-IsWords, test-set, test-clear}

-- The page is free.
abbrev pub is_clear : Table ℕ → ℕ → Bool
is_clear b p = not (bitmap_test p b)

module _ (words : ℕ) where
  pub record IsCounted (s : Pmm) : Type 0 where
    pub are_words : IsWords s.bitmap
    pub counted : s.free_pages ≡ count_from (is_clear s.bitmap) (max_pages words) 0

module _ (words : ℕ) (fits : max_pages words < 2 ^ 32) where
  pub free_one-IsCounted :
      (p : ℕ) (s : Pmm) → p < max_pages words → IsCounted words s → IsCounted words (free_one p s)
  unfolding free_one
  free_one-IsCounted p s h v = elim (Bool-cases (bitmap_test p s.bitmap)) [
    | inr clear ↦ rw (free_one, clear) v
    | inl used ↦
        let more =
          count_from_gain (is_clear s.bitmap) (is_clear (bitmap_clear p s.bitmap)) (max_pages words)
            0 p (omega arith) (omega arith) (rw used)
            (ground (arith, test-clear p p s.bitmap v.are_words))
            (λ k ne. ground (arith, test-clear k p s.bitmap v.are_words)) in
        let top = count_from-le (is_clear (bitmap_clear p s.bitmap)) (max_pages words) 0 in
        rw (free_one, used)
          (record {
            are_words = bitmap_clear-IsWords p s.bitmap v.are_words;
            counted = omega (arith, more, top, v.counted);
          })
  ]

  pub use_one-IsCounted :
      (p : ℕ) (s : Pmm) → p < max_pages words → IsCounted words s → IsCounted words (use_one p s)
  unfolding use_one
  use_one-IsCounted p s h v = elim (Bool-cases (bitmap_test p s.bitmap)) [
    | inl used ↦ rw (use_one, used) v
    | inr clear ↦
        let less =
          count_from_gain (is_clear (bitmap_set p s.bitmap)) (is_clear s.bitmap) (max_pages words) 0
            p (omega arith) (omega arith) (ground (arith, test-set p p s.bitmap)) (rw clear)
            (λ k ne. ground (arith, test-set k p s.bitmap)) in
        let top = count_from-le (is_clear s.bitmap) (max_pages words) 0 in
        rw (use_one, clear)
          (record {
            are_words = bitmap_set-IsWords p s.bitmap v.are_words;
            counted = omega (arith, less, top, v.counted);
          })
  ]

  -- A loop over pages below MAX_PAGES.
  range-IsCounted :
      (body : ℕ → Pmm → Pmm)
      → ((p : ℕ) (s : Pmm) → p < max_pages words → IsCounted words s → IsCounted words (body p s))
      → (n lo : ℕ) (s : Pmm) → lo + n ≤ max_pages words
      → IsCounted words s
      → IsCounted words (for_range body n lo s)
  range-IsCounted body keep n lo s h v =
      for_range_inv body (λ i s. i ≤ max_pages words → IsCounted words s) n lo (lo + n) refl s
        (λ a. v) (λ i s ih a. keep i s (omega arith) (ih (omega arith))) h

  clamp_room :
      (start end : ℕ)
      → leb (max_pages words) start ≡ false
      → start + (clamp words end - start) ≤ max_pages words
  clamp_room start end h = ground arith

  pub mark_region_free-IsCounted :
      (base length : ℕ) (s : Pmm)
      → IsCounted words s
      → IsCounted words (mark_region_free words base length s)
  unfolding mark_region_free
  mark_region_free-IsCounted base length s v =
      let start = base / page_size % 2 ^ 32 in
      elim (Bool-cases (leb (max_pages words) start)) [
        | inl over ↦ rw (mark_region_free, over) v
        | inr below ↦
            rw (mark_region_free, below)
              (range-IsCounted free_one free_one-IsCounted _ start s
                (clamp_room start ((base + length) % 2 ^ 64 / page_size % 2 ^ 32) below) v)
      ]

  pub mark_region_used-IsCounted :
      (base length : ℕ) (s : Pmm)
      → IsCounted words s
      → IsCounted words (mark_region_used words base length s)
  unfolding mark_region_used
  mark_region_used-IsCounted base length s v =
      let start = base / page_size % 2 ^ 32 in
      elim (Bool-cases (leb (max_pages words) start)) [
        | inl over ↦ rw (mark_region_used, over) v
        | inr below ↦
            rw (mark_region_used, below)
              (range-IsCounted use_one use_one-IsCounted _ start s
                (clamp_room start ((base + length + page_size - 1) % 2 ^ 64 / page_size % 2 ^ 32)
                  below)
                v)
      ]

  pub reserve_range-IsCounted :
      (start end : ℕ) (s : Pmm)
      → IsCounted words s
      → IsCounted words (reserve_range words start end s)
  unfolding reserve_range
  reserve_range-IsCounted start end s v =
      ground (arith, mark_region_used-IsCounted start (end - start) s v)

  pub free_page-IsCounted :
      (addr : ℕ) (s : Pmm) → IsCounted words s → IsCounted words (free_page words addr s)
  unfolding free_page
  free_page-IsCounted addr s v = elim (Bool-cases (addr == 0)) [
    | inl z ↦ rw (free_page, z) v
    | inr nz ↦ elim (Bool-cases (leb (max_pages words) (addr / page_size % 2 ^ 32))) [
      | inl over ↦ rw (free_page, nz, over) v
      | inr below ↦
          rw (free_page, nz, below)
            (free_one-IsCounted (addr / page_size % 2 ^ 32) s (ground arith) v)
    ]
  ]
