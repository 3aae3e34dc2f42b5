-- ===== src/Heap/Expand.antt =====
-- `expand_heap` of heap.rs: the pages mapped and the free block that covers them.
use sysrust.Common.{
  ℕ, zero, suc, ◌+◌, ◌-◌, ◌*◌, ◌%◌, ◌^◌, ◌≤◌, ◌<◌, ◌≡◌, ◌≢◌, inl, inr, Bool, true, false, List, [],
  ◌∷◌, ◌++◌, arith, refl, ltb, ◌==◌, Bool-cases, ltb-false, ==→eq,
}
use sysrust.Heap.{
  Block, Heap, PageSource, heap_start, heap_max_pages, header_size, page_size, map_pages,
  expand_heap, null,
}
use sysrust.Heap.Tiling.{Tiled, Tiled-append}

-- The first `k` pages of the heap are mapped, each to a page that the source gave.
abbrev pub IsMapped : ℕ → List (ℕ × ℕ) → Type 0
IsMapped k [] = k ≡ 0
IsMapped k ((virt, phys) ∷ ms) =
    (0 < k) × (virt ≡ heap_start + (k - 1) * page_size) × (phys ≢ null) × IsMapped (k - 1) ms

abbrev pub heap_end : Heap → ℕ
heap_end h = heap_start + h.pages * page_size

-- The headers tile the mapped pages, which number at most HEAP_MAX_PAGES.
pub record IsHeap (h : Heap) : Type 0 where
  pub tiled : Tiled heap_start h.blocks (heap_end h)
  pub bounded : h.pages ≤ heap_max_pages
  pub mapped : IsMapped h.pages h.mappings

module _ (source : PageSource) where
  open source use {State, alloc_page}

  -- What the mapping loop has done when it ends after `mapped` pages in all.
  record Grown (n i : ℕ) (h : Heap) (result : ℕ × Heap × State) : Type 0 where
    blocks : (result.1).blocks ≡ h.blocks
    pages : (result.1).pages + i ≡ h.pages + result.0
    lower : i ≤ result.0
    upper : result.0 ≤ i + n
    mapped : IsMapped (result.1).pages (result.1).mappings

  map_pages-Grown :
      (n i base_virt : ℕ) (h : Heap) (st : State)
      → base_virt + i * page_size ≡ heap_end h
      → IsMapped h.pages h.mappings
      → Grown n i h (map_pages source n i base_virt h st)
  unfolding map_pages
  map_pages-Grown zero i base_virt h st at m = record {
    blocks = refl;
    pages = refl;
    lower = omega arith;
    upper = omega arith;
    mapped = m;
  }
  map_pages-Grown (suc n) i base_virt h st at m = elim (Bool-cases ((alloc_page st).0 == null)) [
    | inl none_left ↦
        rw (map_pages, none_left)
          (record {
            blocks = refl;
            pages = refl;
            lower = omega arith;
            upper = omega arith;
            mapped = m;
          })
    | inr some_left ↦
        let less : h.pages + 1 - 1 ≡ h.pages = omega arith in
        let g =
          map_pages-Grown n (i + 1) base_virt
            (record h {
              pages = h.pages + 1;
              mappings = (base_virt + i * page_size, (alloc_page st).0) ∷ h.mappings;
            })
            (alloc_page st).1 (omega arith) (omega arith, rw less at, ground arith, rw less m) in
        rw (map_pages, some_left)
          (record {
            blocks = g.blocks;
            pages = omega (arith, g.pages);
            lower = omega (arith, g.lower);
            upper = omega (arith, g.upper);
            mapped = g.mapped;
          })
  ]

  -- The source has `n` pages to give.
  abbrev pub HasPages : ℕ → State → Type 0
  HasPages zero st = Unit {0}
  HasPages (suc n) st = ((alloc_page st).0 ≢ null) × HasPages n (alloc_page st).1

  map_pages_all :
      (n i base_virt : ℕ) (h : Heap) (st : State)
      → HasPages n st
      → (map_pages source n i base_virt h st).0 ≡ i + n
  unfolding map_pages
  map_pages_all zero i base_virt h st full = omega arith
  map_pages_all (suc n) i base_virt h st full =
      let more =
        map_pages_all n (i + 1) base_virt
          (record h {
            pages = h.pages + 1;
            mappings = (base_virt + i * page_size, (alloc_page st).0) ∷ h.mappings;
          })
          (alloc_page st).1 full.1 in
      ground (arith, full.0, more)

  -- The free block over `count` new pages.
  abbrev pub fresh_block : ℕ → Heap → Block
  fresh_block count h = record {
    addr = heap_end h;
    size = count * page_size - header_size;
    is_free = true;
  }

  -- Failure leaves the list as it is; success puts a free block over at least one and at most the
  -- pages asked for behind it.
  pub record Expanded (pages : ℕ) (h : Heap) (result : Bool × Heap × State) : Type 0 where
    pub keeps : IsHeap result.1
    pub fails : result.0 ≡ false → (result.1).blocks ≡ h.blocks
    pub grows :
        result.0 ≡ true
        → (count : ℕ) × (1 ≤ count)
          × (count ≤ pages)
          × ((result.1).blocks ≡ h.blocks ++ fresh_block count h ∷ [])

  grown_lem :
      (pages : ℕ) (h : Heap) (st : State)
      → IsHeap h
      → Grown pages 0 h (map_pages source pages 0 (heap_end h) h st)
  grown_lem pages h st v = map_pages-Grown pages 0 (heap_end h) h st (omega arith) v.mapped

  expand_heap-none :
      (count : ℕ) (h h' : Heap)
      → IsHeap h
      → count ≡ 0
      → h'.pages ≡ h.pages + count
      → h'.blocks ≡ h.blocks
      → IsMapped h'.pages h'.mappings
      → IsHeap h'
  expand_heap-none count h h' v none_mapped more same m =
      let end : heap_end h' ≡ heap_end h = omega arith in
      record { tiled = rw (same, end) v.tiled; bounded = omega (arith, v.bounded); mapped = m }

  expand_heap-new :
      (pages count : ℕ) (h h' : Heap)
      → IsHeap h
      → 1 ≤ count
      → h'.pages ≡ h.pages + count
      → h'.pages ≤ heap_max_pages
      → IsMapped h'.pages h'.mappings
      → IsHeap (record h' { blocks = h.blocks ++ fresh_block count h ∷ [] })
  expand_heap-new pages count h h' v one more bound m = record {
    tiled =
        Tiled-append h.blocks (fresh_block count h ∷ []) heap_start (heap_end h) (heap_end h')
          v.tiled (refl, omega arith, omega arith);
    bounded = bound;
    mapped = m;
  }

  pub expand_heap-Expanded :
      (pages : ℕ) (h : Heap) (st : State)
      → IsHeap h
      → Expanded pages h (expand_heap source pages h st)
  unfolding expand_heap
  expand_heap-Expanded pages h st v =
      let g = grown_lem pages h st v in
      elim (Bool-cases (ltb heap_max_pages (h.pages + pages))) [
        | inl over ↦
            rw (expand_heap, over) (record { keeps = v; fails = λ e. refl; grows = λ e. cc })
        | inr room ↦
            let count = (map_pages source pages 0 (heap_end h) h st).0 in
            let h' = (map_pages source pages 0 (heap_end h) h st).1 in
            let more : h'.pages ≡ h.pages + count = omega (arith, g.pages) in
            let bound : h'.pages ≤ heap_max_pages =
              omega (arith, g.upper, ltb-false (heap_max_pages) (h.pages + pages) room) in
            elim (Bool-cases (count == 0)) [
              | inl nothing ↦
                  rw (expand_heap, room, nothing)
                    (record {
                      keeps =
                          expand_heap-none count h h' v (==→eq count 0 nothing) more g.blocks
                            g.mapped;
                      fails = λ e. g.blocks;
                      grows = λ e. cc;
                    })
              | inr something ↦
                  let wrap : (count * page_size - header_size) % 2 ^ 32
                      ≡ count * page_size - header_size =
                    omega (arith, more, bound) in
                  let one : 1 ≤ count = ground arith in
                  rw (expand_heap, room, something, g.blocks, wrap)
                    (record {
                      keeps = expand_heap-new pages count h h' v one more bound g.mapped;
                      fails = λ e. cc;
                      grows = λ e. (count, one, omega (arith, g.upper), refl);
                    })
            ]
      ]

  -- A source with enough pages lets the heap grow by all the pages asked for.
  pub expand_heap_all :
      (pages : ℕ) (h : Heap) (st : State)
      → IsHeap h
      → HasPages pages st
      → 1 ≤ pages
      → h.pages + pages ≤ heap_max_pages
      → ((expand_heap source pages h st).0 ≡ true)
        × ((expand_heap source pages h st).1.blocks ≡ h.blocks ++ fresh_block pages h ∷ [])
  unfolding expand_heap
  expand_heap_all pages h st v full one room =
      let count : (map_pages source pages 0 (heap_end h) h st).0 ≡ pages =
        omega (arith, map_pages_all pages 0 (heap_end h) h st full) in
      let same = (grown_lem pages h st v).blocks in
      let within : ltb heap_max_pages (h.pages + pages) ≡ false = ground arith in
      let some_pages : (pages == 0) ≡ false = ground arith in
      let wrap : (pages * page_size - header_size) % 2 ^ 32 ≡ pages * page_size - header_size =
        omega arith in
      rw (expand_heap, within, count, some_pages, same, wrap) (refl, refl)
