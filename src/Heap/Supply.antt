-- ===== src/Heap/Supply.antt =====
-- `kmalloc` of heap.rs when memory can still be had: it does not give up.
use sysrust.Common.{
  ℕ, zero, suc, ◌+◌, ◌*◌, ◌≤◌, ◌<◌, ◌^◌, ◌≡◌, ◌≢◌, inl, inr, true, false, some, [], ◌∷◌, ◌++◌,
  arith, refl, ◌∙◌, Option-cases, ◌==◌, leb, ◌&&◌,
}
use sysrust.Heap.{
  Block, Blocks, Heap, PageSource, heap_start, heap_max_pages, header_size, page_size, null,
  aligned, need_pages, first_fit, expand_heap, kmalloc, init,
}
use sysrust.Pmm.{Pmm, bitmap_test, max_pages, alloc_page}
use sysrust.Pmm.Counting.{IsCounted}
use sysrust.Pmm.Alloc.{alloc_page-Taken}
use sysrust.Heap.Replace.{first_fit-Fitted, first_fit-none, NoneFits}
use sysrust.Heap.Fit.{try_alloc-Carved}
use sysrust.Heap.Contents.{Replaced-range}
use sysrust.Heap.Expand.{
  IsHeap, heap_end, expand_heap-Expanded, expand_heap_all, fresh_block, HasPages,
}

-- A free header of the size asked for is found, wherever it stands.
NoneFits-last :
    (bs : Blocks) (b : Block) (n : ℕ)
    → NoneFits n (bs ++ b ∷ [])
    → (b.is_free && leb n b.size) ≡ false
NoneFits-last [] b n f = f.0
NoneFits-last (c ∷ bs) b n f = NoneFits-last bs b n f.1

need_pages_enough : (a : ℕ) → (a + header_size ≤ need_pages a * page_size) × (1 ≤ need_pages a)
unfolding need_pages
need_pages_enough a = ground arith

first_fit-ne-null :
    (g : Heap) (n ptr : ℕ) (bs : Blocks)
    → IsHeap g
    → first_fit n g.blocks ≡ some (ptr, bs)
    → ptr ≢ null
first_fit-ne-null g n ptr bs v e z =
    let f = first_fit-Fitted g.blocks n ptr bs e in
    let range = Replaced-range heap_start (heap_end g) f.replaced v.tiled in
    let c = try_alloc-Carved f.block n ptr f.here (omega (arith, range, v.bounded)) f.taken in
    omega (arith, c.pointer)

module _ (source : PageSource) where
  open source use {State}

  -- On a well-formed heap, with a page source that never runs out, a request of non-zero size is
  -- answered with a non-null pointer if the pages it may need keep the heap within HEAP_MAX_PAGES.
  pub kmalloc_succeeds :
      (size : ℕ) (h : Heap) (st : State)
      → size ≢ 0
      → IsHeap h
      → HasPages source (need_pages (aligned size)) st
      → h.pages + need_pages (aligned size) ≤ heap_max_pages
      → (kmalloc source size h st).0 ≢ null
  unfolding kmalloc
  kmalloc_succeeds size h st ne v full room =
      let positive : (size == 0) ≡ false = ground arith in
      elim (Option-cases (first_fit (aligned size) h.blocks)) [
        | inr ((ptr, bs), e) ↦
            rw (kmalloc, positive, e) (first_fit-ne-null h (aligned size) ptr bs v e)
        | inl e ↦
            let pages = need_pages (aligned size) in
            let enough = need_pages_enough (aligned size) in
            let h' = (expand_heap source pages h st).1 in
            let x = expand_heap-Expanded source pages h st v in
            let (done, grown) = expand_heap_all source pages h st v full enough.1 room in
            elim (Option-cases (first_fit (aligned size) h'.blocks)) [
              | inr ((ptr, bs), e') ↦
                  rw (kmalloc, positive, e, done, e')
                    (first_fit-ne-null h' (aligned size) ptr bs x.keeps e')
              | inl e' ↦
                  let last =
                    NoneFits-last h.blocks (fresh_block source pages h) (aligned size)
                      (rw grown at (first_fit-none h'.blocks (aligned size) e')) in
                  absurd (ground (arith, enough))
            ]
      ]

  -- The heap that `init` leaves is well formed, also when the source gives fewer than 256 pages.
  pub init-IsHeap : (st : State) → IsHeap (init source st).0
  unfolding init
  init-IsHeap st =
      (expand_heap-Expanded source 256 (record { blocks = []; pages = 0; mappings = [] }) st
        (record { tiled = refl; bounded = omega arith; mapped = refl })).keeps

-- The page allocator of pmm.rs.
abbrev pub from_pmm : (words : ℕ) → PageSource
from_pmm words = record { State = Pmm; alloc_page = λ s. alloc_page words s }

module _ (words : ℕ) (fits : max_pages words < 2 ^ 32) where
  -- With page 0 reserved, it has as many pages to give as its counter says.
  pub HasPages-from_pmm :
      (n : ℕ) (s : Pmm)
      → IsCounted words s
      → bitmap_test 0 s.bitmap ≡ true
      → n ≤ s.free_pages
      → HasPages (from_pmm words) n s
  HasPages-from_pmm zero s v reserved enough = tt
  HasPages-from_pmm (suc n) s v reserved enough =
      let t = (alloc_page-Taken words fits s v).1 (omega arith) in
      let high : t.page ≢ 0 = λ z. absurd (cc (z, t.was_clear, reserved)) in
      let still : bitmap_test 0 (alloc_page words s).1.bitmap ≡ true =
        t.marks 0 ∙ rw reserved (ground arith) in
      (
        omega (arith, t.address, high),
        HasPages-from_pmm n (alloc_page words s).1 t.counted still (omega (arith, t.one_fewer)),
      )
