-- ===== src/Heap/Tests.antt =====
-- Runs of the heap of heap.rs on a few blocks, and its theorems at them.
use sysrust.Common.{
  ℕ, ◌+◌, ◌*◌, ◌≡◌, true, false, some, [], ◌∷◌, arith, refl, inl, Bool, ◌==◌, if◌then◌else◌,
}
use sysrust.Heap.{
  Block, Blocks, Heap, PageSource, heap_start, kmalloc, kfree, init, coalesce, first_fit, aligned,
  get_free, release, absorb, map_pages, try_alloc,
}
use sysrust.Heap.Coalesce.{IsCoalesced}
use sysrust.Heap.Expand.{IsHeap}
use sysrust.Heap.RoundTrip.{Freed, kfree-Freed, kfree-kmalloc, kfree-kmalloc_exact}
use sysrust.Heap.Supply.{init-IsHeap}
use sysrust.Pmm.{Pmm, full_word}

-- Pages from 16 MiB on, one after another.
abbrev from_16m : PageSource
from_16m = record { State = ℕ; alloc_page = λ n. (0x0100_0000 + n * 4096, n + 1) }

abbrev block : ℕ → ℕ → Bool → Block
block a n f = record { addr = a; size = n; is_free = f }

-- One page: 64 bytes in use, the rest free.
abbrev one_page : Heap
one_page = record {
  blocks = block heap_start 64 false ∷ block (heap_start + 80) 4000 true ∷ [];
  pages = 1;
  mappings = (heap_start, 0x0100_0000) ∷ [];
}

one_page-IsHeap : IsHeap one_page
one_page-IsHeap = record {
  tiled = (refl, refl, (refl, refl, refl));
  bounded = omega arith;
  mapped = (omega arith, refl, omega arith, refl);
}

fit_100 :
    first_fit (aligned 100) one_page.blocks
    ≡ some (
      heap_start + 96,
      block heap_start 64 false
          ∷ block (heap_start + 80) 104 false
          ∷ block (heap_start + 200) 3880 true
          ∷ [],
    )
unfolding first_fit
fit_100 = refl

-- A request of 2^32 bytes is cut to none: the pointer that comes back has no byte behind it.
cut_request :
    (kmalloc from_16m 0x1_0000_0000 one_page 1).1.blocks
    ≡ block heap_start 64 false
      ∷ block (heap_start + 80) 0 false
      ∷ block (heap_start + 96) 3984 true
      ∷ []
unfolding kmalloc
cut_request = refl

-- 64 pages: the upper half is free.
abbrev half_free : Pmm
half_free = record {
  bitmap = λ i. if i == 0 then full_word else 0;
  total_pages = 64;
  free_pages = 32;
}

kfree-Freed_example :
    (h' : Heap) × (kfree (heap_start + 16) one_page ≡ some h') × Freed (heap_start + 16) one_page h'
kfree-Freed_example =
    kfree-Freed (heap_start + 16) 64 one_page one_page-IsHeap (inl (refl, refl, refl))

one_page-IsCoalesced : IsCoalesced one_page.blocks
one_page-IsCoalesced = (refl, tt)

kfree-kmalloc_exact_example :
    kfree (kmalloc from_16m 100 one_page 1).0 (kmalloc from_16m 100 one_page 1).1 ≡ some one_page
kfree-kmalloc_exact_example =
    kfree-kmalloc_exact from_16m 100 (heap_start + 96) one_page 1
      (block heap_start 64 false
        ∷ block (heap_start + 80) 104 false
        ∷ block (heap_start + 200) 3880 true
        ∷ [])
      (omega arith) one_page-IsHeap one_page-IsCoalesced fit_100

kfree-kmalloc_example :
    kfree (kmalloc from_16m 100 one_page 1).0 (kmalloc from_16m 100 one_page 1).1
    ≡ some (record one_page { blocks = coalesce one_page.blocks })
kfree-kmalloc_example =
    kfree-kmalloc from_16m 100 (heap_start + 96) one_page 1
      (block heap_start 64 false
        ∷ block (heap_start + 80) 104 false
        ∷ block (heap_start + 200) 3880 true
        ∷ [])
      (omega arith) one_page-IsHeap fit_100

init-IsHeap_example : IsHeap (init from_16m 0).0
init-IsHeap_example = init-IsHeap from_16m 0
