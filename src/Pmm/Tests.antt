-- ===== src/Pmm/Tests.antt =====
-- Runs of the page allocator of pmm.rs on a bitmap of two words, and its theorems at it.
use sysrust.Common.{
  ℕ, ◌+◌, ◌*◌, ◌/◌, ◌-◌, ◌≡◌, ◌≢◌, ◌==◌, true, false, List, [], ◌∷◌, arith, refl, if◌then◌else◌,
  find_from, count_from,
}
use sysrust.Pmm.{
  Pmm, MmapEntry, alloc_page, free_page, init, bitmap_test, mark_region_free, mark_region_used,
  max_pages, page_size, kernel_words,
}
use sysrust.Pmm.Bitmap.{IsWords}
use sysrust.Pmm.Counting.{IsCounted, free_page-IsCounted}
use sysrust.Pmm.Regions.{mark_region_free_pages, mark_region_used_pages, within}
use sysrust.Pmm.Alloc.{Taken, alloc_page-Taken, free_page-alloc_page}
use sysrust.Pmm.Boot.{init-IsCounted, init_reserves}

-- 64 pages: 3 and 40 are free.
abbrev two_free : Pmm
two_free = record {
  bitmap = λ i. if i == 0 then 0xffff_fff7 else if i == 1 then 0xffff_feff else 0;
  total_pages = 64;
  free_pages = 2;
}

two_free-IsWords : IsWords two_free.bitmap
two_free-IsWords i = ground arith

two_free-IsCounted : IsCounted 2 two_free
unfolding count_from bitmap_test
two_free-IsCounted = record { are_words = two_free-IsWords; counted = refl }

alloc_two_free : (alloc_page 2 two_free).0 ≡ 3 * 4096
unfolding alloc_page find_from
alloc_two_free = refl

alloc_two_free_ne_zero : (alloc_page 2 two_free).0 ≢ 0
alloc_two_free_ne_zero e = omega (arith, alloc_two_free)

alloc_page-Taken_example :
    (two_free.free_pages ≡ 0 → alloc_page 2 two_free ≡ (0, two_free))
    × (two_free.free_pages ≢ 0
        → Taken 2 two_free (alloc_page 2 two_free).0 (alloc_page 2 two_free).1)
alloc_page-Taken_example = alloc_page-Taken 2 (omega arith) two_free two_free-IsCounted

free_page-alloc_page_example :
    let s' = free_page 2 (alloc_page 2 two_free).0 (alloc_page 2 two_free).1 in
    ((q : ℕ) → bitmap_test q s'.bitmap ≡ bitmap_test q two_free.bitmap)
    × (s'.free_pages ≡ two_free.free_pages)
free_page-alloc_page_example =
    free_page-alloc_page 2 (omega arith) two_free two_free-IsCounted alloc_two_free_ne_zero

free_page-IsCounted_example : IsCounted 2 (free_page 2 0x5000 two_free)
free_page-IsCounted_example = free_page-IsCounted 2 (omega arith) 0x5000 two_free two_free-IsCounted

-- 640 KiB of low memory, then 12 KiB from 1 MiB and 4 KiB on.
abbrev low_and_high : List MmapEntry
low_and_high =
    record { base_low = 0; base_high = 0; length_low = 0xa0000; entry_type = 1 }
    ∷ record { base_low = 0x101000; base_high = 0; length_low = 0x3000; entry_type = 1 }
    ∷ []

init-IsCounted_example :
    IsCounted kernel_words (init kernel_words low_and_high 0x102000 two_free)
    × ((init kernel_words low_and_high 0x102000 two_free).total_pages ≡ max_pages kernel_words)
init-IsCounted_example =
    init-IsCounted kernel_words (omega arith) low_and_high 0x102000 two_free two_free-IsWords

init_reserves_example :
    bitmap_test 0 (init kernel_words low_and_high 0x102000 two_free).bitmap ≡ true
init_reserves_example =
    init_reserves kernel_words (omega arith) low_and_high 0x102000 two_free (omega arith)
      (omega arith) 0 (omega arith) (omega arith)

-- A region that begins in the middle of a page frees that page whole.
mark_region_free_pages_example :
    bitmap_test 5 (mark_region_free 2 0x5800 0x1000 two_free).bitmap ≡ (
      if within (0x5800 / page_size) ((0x5800 + 0x1000) / page_size) 5
      then false
      else bitmap_test 5 two_free.bitmap)
mark_region_free_pages_example =
    mark_region_free_pages 2 0x5800 0x1000 two_free two_free-IsWords (omega arith) 5 (omega arith)

mark_region_used_pages_example : bitmap_test 3 (mark_region_used 2 0x2fff 2 two_free).bitmap ≡ (
    if within (0x2fff / page_size) ((0x2fff + 2 + page_size - 1) / page_size) 3
    then true
    else bitmap_test 3 two_free.bitmap)
mark_region_used_pages_example =
    mark_region_used_pages 2 0x2fff 2 two_free (omega arith) 3 (omega arith)
