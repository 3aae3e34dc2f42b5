-- ===== src/Heap/Malloc.antt =====
-- `kmalloc` and `kfree` of heap.rs: what they do to the allocations.
use sysrust.Common.{
  ℕ, ◌+◌, ◌^◌, ◌≤◌, ◌<◌, ◌≡◌, ◌≢◌, ◌⊎◌, ◌↔◌, inl, inr, true, some, [], ◌∷◌, ◌++◌, arith, refl,
  Option-cases, Bool-cases, ◌==◌,
}
use sysrust.Heap.{
  Block, Blocks, Heap, PageSource, heap_start, header_size, min_split, null, aligned, need_pages,
  first_fit, expand_heap, kmalloc,
}
use sysrust.Heap.Tiling.{Tiled}
use sysrust.Heap.Replace.{first_fit-Fitted}
use sysrust.Heap.Fit.{Carved, try_alloc-Carved, first_fit-Tiled}
use sysrust.Heap.Contents.{
  Live, Live-range, Live-Apart, Apart, Replaced-Live, Live-append, free-not-Live, Replaced-range,
}
use sysrust.Heap.Expand.{IsHeap, heap_end, expand_heap-Expanded, fresh_block}

-- One allocation more: `n` bytes at `ptr`, at least what was asked for, and not there before.
pub record Allocated (size ptr : ℕ) (bs bs' : Blocks) : Type 0 where
  pub bytes : ℕ
  pub enough : size ≤ bytes
  pub here : Live ptr bytes bs'
  pub keeps : (p n : ℕ) → Live p n bs → Live p n bs'
  pub only : (p n : ℕ) → Live p n bs' → (p ≡ ptr) ⊎ Live p n bs
  pub new : (n : ℕ) → ¬ Live ptr n bs

Carved-Live :
    (n ptr p m : ℕ) (b : Block) (here : Blocks) → Carved n ptr b here → Live p m here → p ≡ ptr
Carved-Live n ptr p m b here c l = elim c.shape [
  | inl whole ↦ elim (rw whole.1 at l) [ inl k ↦ omega (arith, c.pointer, k.1) | inr k ↦ absurd k ]
  | inr split ↦ elim (rw split.1 at l) [
    | inl k ↦ omega (arith, c.pointer, k.1)
    | inr k ↦ absurd (ground arith)
  ]
]

Carved-here :
    (n ptr : ℕ) (b : Block) (here : Blocks)
    → Carved n ptr b here
    → (bytes : ℕ) × (n ≤ bytes) × Live ptr bytes here
Carved-here n ptr b here c = elim c.shape [
  | inl whole ↦ (b.size, c.enough, rw whole.1 (inl (refl, ground (arith, c.pointer), refl)))
  | inr split ↦ (n, omega arith, rw split.1 (inl (refl, ground (arith, c.pointer), refl)))
]

first_fit-Allocated :
    (bs : Blocks) (n ptr : ℕ) (bs' : Blocks) (a e : ℕ)
    → first_fit n bs ≡ some (ptr, bs')
    → e + header_size + min_split < 2 ^ 32
    → Tiled a bs e
    → Allocated n ptr bs bs'
first_fit-Allocated bs n ptr bs' a e h small t =
    let f = first_fit-Fitted bs n ptr bs' h in
    let range = Replaced-range a e f.replaced t in
    let c = try_alloc-Carved f.block n ptr f.here (omega (arith, range)) f.taken in
    let (bytes, enough, new) = Carved-here n ptr f.block f.here c in
    let r = f.replaced in
    record {
      bytes = bytes;
      enough = enough;
      here = rw r.after (
          (Live-append ptr bytes r.front (f.here ++ r.back)).1
            (inr ((Live-append ptr bytes f.here r.back).1 (inl new))));
      keeps = λ p m l. elim ((Replaced-Live p m r).1 l) [
        | inl gone ↦ elim gone [ inl k ↦ absurd (ground (arith, c.was_free)) | inr k ↦ absurd k ]
        | inr kept ↦ kept
      ];
      only = λ p m l. elim ((Replaced-Live p m r).0 l) [
        | inl k ↦ inl (Carved-Live n ptr p m f.block f.here c k)
        | inr old ↦ inr old
      ];
      new = λ m l. free-not-Live m a e r c.was_free t (rw c.pointer at l);
    }

-- The same allocations.
abbrev pub SameLive : Blocks → Blocks → Type 0
SameLive bs bs' = (p n : ℕ) → Live p n bs' ↔ Live p n bs

SameLive-refl : (bs : Blocks) → SameLive bs bs
SameLive-refl bs p n = (λ l. l, λ l. l)

-- A free block at the end of the list is no allocation.
SameLive-grown : (bs : Blocks) (b : Block) → b.is_free ≡ true → SameLive bs (bs ++ b ∷ [])
SameLive-grown bs b free p n =
    let (split, join) = Live-append p n bs (b ∷ []) in
    (
      λ l. elim (split l) [
        | inl old ↦ old
        | inr end ↦ elim end [ inl k ↦ absurd (ground arith) | inr k ↦ absurd k ]
      ],
      λ l. join (inl l),
    )

-- The heap stays well formed; null comes with the allocations unchanged, and any other pointer is
-- one new allocation of the size asked for.
pub record Outcome (size : ℕ) (h : Heap) (ptr : ℕ) (h' : Heap) : Type 0 where
  pub keeps : IsHeap h'
  pub fails : ptr ≡ null → SameLive h.blocks h'.blocks
  pub gives : ptr ≢ null → Allocated size ptr h.blocks h'.blocks

-- On a well-formed heap two allocations at different addresses do not overlap: one ends, with room
-- for a header, before the other begins.
pub IsHeap-Apart :
    (h : Heap) (p n q m : ℕ)
    → IsHeap h
    → Live p n h.blocks
    → Live q m h.blocks
    → p ≢ q
    → Apart p n q m
IsHeap-Apart h p n q m v = Live-Apart p n q m h.blocks heap_start (heap_end h) v.tiled

-- The request fits the 32-bit size that the code rounds up.
abbrev pub IsRequest : ℕ → Type 0
IsRequest size = size + 8 ≤ 2 ^ 32

first_fit-Outcome :
    (size : ℕ) (h g : Heap) (ptr : ℕ) (bs : Blocks)
    → IsRequest size
    → IsHeap g
    → SameLive h.blocks g.blocks
    → first_fit (aligned size) g.blocks ≡ some (ptr, bs)
    → Outcome size h ptr (record g { blocks = bs })
first_fit-Outcome size h g ptr bs fits v same e =
    let small : heap_end g + header_size + min_split < 2 ^ 32 = omega (arith, v.bounded) in
    let a =
      first_fit-Allocated g.blocks (aligned size) ptr bs heap_start (heap_end g) e small v.tiled in
    let tiled =
      first_fit-Tiled g.blocks (aligned size) ptr bs heap_start (heap_end g) e (omega arith) small
        v.tiled in
    let range = Live-range ptr a.bytes bs heap_start (heap_end g) tiled a.here in
    record {
      keeps = record { tiled = tiled; bounded = v.bounded; mapped = v.mapped };
      fails = λ null_ptr. absurd (omega (arith, range));
      gives = λ ne. record {
        bytes = a.bytes;
        enough = omega (arith, a.enough);
        here = a.here;
        keeps = λ p n l. a.keeps p n ((same p n).1 l);
        only = λ p n l. elim (a.only p n l) [ inl k ↦ inl k | inr k ↦ inr ((same p n).0 k) ];
        new = λ n l. a.new n ((same ptr n).1 l);
      };
    }

Outcome-null :
    (size : ℕ) (h g : Heap) → IsHeap g → SameLive h.blocks g.blocks → Outcome size h null g
Outcome-null size h g v same = record {
  keeps = v;
  fails = λ e. same;
  gives = λ ne. absurd (ne refl);
}

module _ (source : PageSource) where
  open source use {State, alloc_page}

  Expanded-SameLive :
      (pages : ℕ) (h : Heap) (st : State)
      → IsHeap h
      → SameLive h.blocks (expand_heap source pages h st).1.blocks
  Expanded-SameLive pages h st v =
      let x = expand_heap-Expanded source pages h st v in
      elim (Bool-cases (expand_heap source pages h st).0) [
        | inl t ↦
            let (count, _, _, same) = x.grows t in
            rw same (SameLive-grown h.blocks (fresh_block source count h) refl)
        | inr f ↦ rw (x.fails f) (SameLive-refl h.blocks)
      ]

  pub kmalloc-Outcome :
      (size : ℕ) (h : Heap) (st : State)
      → IsRequest size
      → IsHeap h
      → Outcome size h (kmalloc source size h st).0 (kmalloc source size h st).1
  unfolding kmalloc
  kmalloc-Outcome size h st fits v = elim (Bool-cases (size == 0)) [
    | inl zero_size ↦ rw (kmalloc, zero_size) (Outcome-null size h h v (SameLive-refl h.blocks))
    | inr positive ↦ elim (Option-cases (first_fit (aligned size) h.blocks)) [
      | inr ((ptr, bs), e) ↦
          rw (kmalloc, positive, e)
            (first_fit-Outcome size h h ptr bs fits v (SameLive-refl h.blocks) e)
      | inl e ↦
          let x = expand_heap-Expanded source (need_pages (aligned size)) h st v in
          let same = Expanded-SameLive (need_pages (aligned size)) h st v in
          let h' = (expand_heap source (need_pages (aligned size)) h st).1 in
          elim (Bool-cases (expand_heap source (need_pages (aligned size)) h st).0) [
            | inr f ↦ rw (kmalloc, positive, e, f) (Outcome-null size h h' x.keeps same)
            | inl t ↦ elim (Option-cases (first_fit (aligned size) h'.blocks)) [
              | inl e' ↦ rw (kmalloc, positive, e, t, e') (Outcome-null size h h' x.keeps same)
              | inr ((ptr, bs), e') ↦
                  rw (kmalloc, positive, e, t, e')
                    (first_fit-Outcome size h h' ptr bs fits x.keeps same e')
            ]
          ]
    ]
  ]
