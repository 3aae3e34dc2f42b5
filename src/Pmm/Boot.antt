-- ===== src/Pmm/Boot.antt =====
-- `init` of pmm.rs: the counters and the reserved pages that it leaves.
use Prim.Native.Nat.{bit_and}
use sysrust.Common.{
  ℕ, zero, suc, ◌+◌, ◌-◌, ◌*◌, ◌/◌, ◌%◌, ◌^◌, ◌≤◌, ◌<◌, ◌≡◌, inl, inr, Bool, true, not, List, [],
  ◌∷◌, arith, ◌==◌, ltb, if◌then◌else◌, Table, store, Bool-cases, for_range_inv, count_from,
  count_from-add, count_from_shift, count_from-not, count_from_ext, count_from_zero, count_from-le,
  ◌∙◌, sym, ap,
}
use mathlib.Core.Bool.{not-not}
use sysrust.Pmm.{
  Pmm, MmapEntry, bitmap_test, max_pages, mark_region_used, page_size, full_word, fill, add_entry,
  add_entries, add_bits, add_words, init,
}
use sysrust.Pmm.Bitmap.{IsWords}
use sysrust.Pmm.Counting.{
  is_clear, IsCounted, mark_region_free-IsCounted, mark_region_used-IsCounted,
}
use sysrust.Pmm.Regions.{mark_region_used_pages}
use sysrust.Pmm.Alloc.{page_test, full_word_used}

-- The test that the last loop makes on a bit of a word.
abbrev set_in : ℕ → ℕ → Bool
set_in w k = not (bit_and w (2 ^ k) == 0)

add_bits-count :
    (w n lo total : ℕ)
    → total < 2 ^ 32
    → add_bits w n lo total ≡ (total + count_from (set_in w) n lo) % 2 ^ 32
unfolding add_bits count_from
add_bits-count w zero lo total small = omega arith
add_bits-count w (suc n) lo total small = elim (Bool-cases (bit_and w (2 ^ lo) == 0)) [
  | inl off ↦ rw (add_bits, off) (omega (arith, add_bits-count w n (lo + 1) total small))
  | inr on ↦
      rw (add_bits, on)
        (omega (arith, add_bits-count w n (lo + 1) ((total + 1) % 2 ^ 32) (omega arith)))
]

-- The bits of one word are 32 pages of the bitmap.
word-count :
    (b : Table ℕ) (i : ℕ)
    → count_from (set_in (b i)) 32 0 ≡ count_from (λ p. bitmap_test p b) 32 (i * 32)
word-count b i =
    count_from_ext (set_in (b i)) (λ k. bitmap_test (i * 32 + k) b) 32 0
      (λ k a h. ap not (page_test i k b (omega arith)) ∙ not-not (bitmap_test (i * 32 + k) b))
    ∙ count_from_shift (λ p. bitmap_test p b) 32 0 (i * 32)
    ∙ ap (count_from (λ p. bitmap_test p b) 32) (omega arith)

add_words-count :
    (b : Table ℕ) (n i total : ℕ)
    → total < 2 ^ 32
    → add_words b n i total ≡ (total + count_from (λ p. bitmap_test p b) (n * 32) (i * 32)) % 2 ^ 32
unfolding add_words
add_words-count b zero i total small = unfold count_from in omega arith
add_words-count b (suc n) i total small =
    let first = add_bits-count (b i) 32 0 total small in
    let rest = add_words-count b n (i + 1) (add_bits (b i) 32 0 total) (omega (arith, first)) in
    let split = count_from-add (λ p. bitmap_test p b) 32 (n * 32) (i * 32) in
    let size : suc n * 32 ≡ 32 + n * 32 = omega arith in
    let place : (i + 1) * 32 ≡ i * 32 + 32 = omega arith in
    rest ∙ rw (size, place, split) (omega (arith, first, word-count b i))

-- The loop over the words adds the used pages to the count that it starts from.
add_words-used :
    (b : Table ℕ) (words total : ℕ)
    → max_pages words < 2 ^ 32
    → total ≡ count_from (is_clear b) (max_pages words) 0
    → add_words b words 0 total ≡ max_pages words
add_words-used b words total fits e =
    let both = count_from-not (λ p. bitmap_test p b) (max_pages words) 0 in
    add_words-count b words 0 total (omega (arith, count_from-le (is_clear b) (max_pages words) 0))
    ∙ omega arith

fill-full : (words : ℕ) (b : Table ℕ) (i : ℕ) → i < words → fill words b i ≡ full_word
unfolding fill
fill-full words b i h =
    for_range_inv (λ i (b : Table ℕ). store b i full_word)
      (λ n (c : Table ℕ). (k : ℕ) → k < n → c k ≡ full_word) words 0 words (omega arith) b
      (λ k a. absurd (omega arith)) (λ n c ih k a. ground (arith, ih k)) i h

fill-IsWords : (words : ℕ) (b : Table ℕ) → IsWords b → IsWords (fill words b)
unfolding fill
fill-IsWords words b w =
    for_range_inv (λ i (b : Table ℕ). store b i full_word) (λ n (c : Table ℕ). IsWords c) words 0
      words (omega arith) b w (λ n c ih k. ground (arith, ih k))

module _ (words : ℕ) (fits : max_pages words < 2 ^ 32) where
  -- After step 1 no page is free.
  fill-IsCounted :
      (b : Table ℕ) (total : ℕ)
      → IsWords b
      → IsCounted words (record { bitmap = fill words b; total_pages = total; free_pages = 0 })
  fill-IsCounted b total w = record {
    are_words = fill-IsWords words b w;
    counted = sym (
        (count_from_zero (is_clear (fill words b)) (max_pages words) 0).1 λ p a h.
          full_word_used (p / 32) p (fill words b) (fill-full words b (p / 32) (omega arith))
            (omega arith) (omega arith));
  }

  add_entry-IsCounted :
      (e : MmapEntry) (s : Pmm) → IsCounted words s → IsCounted words (add_entry words e s)
  unfolding add_entry
  add_entry-IsCounted e s v =
      let end = e.base_low + e.length_low in
      let end' =
        if ltb (max_pages words * page_size) end then max_pages words * page_size else end in
      ground (arith, mark_region_free-IsCounted words fits e.base_low (end' - e.base_low) s v)

  add_entries-IsCounted :
      (es : List MmapEntry) (s : Pmm) → IsCounted words s → IsCounted words (add_entries words es s)
  unfolding add_entries
  add_entries-IsCounted [] s v = v
  add_entries-IsCounted (e ∷ es) s v =
      add_entries-IsCounted es (add_entry words e s) (add_entry-IsCounted e s v)

  -- With fewer than 2^32 pages and a bitmap of 32-bit words, init leaves, for every memory map and
  -- every end of the kernel image, FREE_PAGES equal to the number of clear bits, and TOTAL_PAGES
  -- equal to the number of pages that the bitmap covers, whatever memory the map reports.
  pub init-IsCounted :
      (entries : List MmapEntry) (kernel_end : ℕ) (s : Pmm)
      → IsWords s.bitmap
      → IsCounted words (init words entries kernel_end s)
        × ((init words entries kernel_end s).total_pages ≡ max_pages words)
  unfolding init
  init-IsCounted entries kernel_end s w =
      let s2 =
        add_entries words entries
          (record { bitmap = fill words s.bitmap; total_pages = 0; free_pages = 0 }) in
      let v2 = add_entries-IsCounted entries _ (fill-IsCounted s.bitmap 0 w) in
      let v2' : IsCounted words (record s2 { total_pages = s2.free_pages }) = record {
        are_words = v2.are_words;
        counted = v2.counted;
      } in
      let s3 = mark_region_used words 0 0x100000 (record s2 { total_pages = s2.free_pages }) in
      let v3 =
        mark_region_used-IsCounted words fits 0 0x100000 (record s2 { total_pages = s2.free_pages })
          v2' in
      let image = (kernel_end + 2 ^ 64 - 0x100000) % 2 ^ 64 in
      let s4 = mark_region_used words 0x100000 image s3 in
      let v4 = mark_region_used-IsCounted words fits 0x100000 image s3 v3 in
      (
        record { are_words = v4.are_words; counted = v4.counted },
        add_words-used s4.bitmap words s4.free_pages fits v4.counted,
      )

  -- With fewer than 2^32 pages and a kernel image that ends at or above 1 MiB and below 8 TiB,
  -- after init every page that begins below the end of the image is used, whatever the memory map
  -- reports.
  pub init_reserves :
      (entries : List MmapEntry) (kernel_end : ℕ) (s : Pmm)
      → 0x100000 ≤ kernel_end
      → kernel_end < 2 ^ 43
      → (q : ℕ) → q < max_pages words
      → q * page_size < kernel_end
      → bitmap_test q (init words entries kernel_end s).bitmap ≡ true
  unfolding init
  init_reserves entries kernel_end s lo hi q h inside =
      let s2 =
        add_entries words entries
          (record { bitmap = fill words s.bitmap; total_pages = 0; free_pages = 0 }) in
      let s2' : Pmm = record s2 { total_pages = s2.free_pages } in
      let s3 = mark_region_used words 0 0x100000 s2' in
      let image : (kernel_end + 2 ^ 64 - 0x100000) % 2 ^ 64 ≡ kernel_end - 0x100000 = omega arith in
      let low = mark_region_used_pages words 0 0x100000 s2' (omega arith) q h in
      let high =
        mark_region_used_pages words 0x100000 (kernel_end - 0x100000) s3 (omega arith) q h in
      rw image (ground (arith, low, high))
