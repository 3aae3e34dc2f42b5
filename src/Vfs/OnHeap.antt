-- ===== src/Vfs/OnHeap.antt =====
-- The tree of src/vfs.rs on the heap of src/heap.rs: its theorems about mkdir_p, with kmalloc and
-- kfree as heap.rs has them.
use sysrust.Common.{
  ℕ, ◌+◌, ◌^◌, ◌≤◌, ◌≡◌, ◌<◌, ◌⊎◌, inl, inr, ◌&&◌, not, Option, none, some, [], ◌∷◌, ◌==◌,
  Bool-cases, arith, ==→eq,
}
use native.Mathlib.Decide.{ℕ_discrete}
use sysrust.Heap
use sysrust.Heap.{Heap, Blocks, PageSource, header_size}
use sysrust.Heap.Contents.{Live}
use sysrust.Heap.Expand.{IsHeap}
use sysrust.Heap.Malloc.{kmalloc-Outcome}
use sysrust.Heap.RoundTrip.{kfree-Freed}
use sysrust.Vfs.{Vfs, NodeHeap}
use sysrust.Vfs.Trees.{Allocator}
use sysrust.Vfs.Created.{Created}

-- An allocation begins at an address, or none does.
pub Live-cases : (p : ℕ) (bs : Blocks) → ((n : ℕ) × Live p n bs) ⊎ ((n : ℕ) → ¬ Live p n bs)
Live-cases p [] = inr (λ n l. l)
Live-cases p (b ∷ bs) = elim (Bool-cases (not b.is_free && (b.addr + header_size == p))) [
  | inl t ↦ inl (b.size, inl (ground arith))
  | inr f ↦ elim (Live-cases p bs) [
    | inl (n, l) ↦ inl (n, inr l)
    | inr gone ↦ inr (λ n l. elim l [ inl here ↦ absurd (ground arith) | inr more ↦ gone n more ])
  ]
]

module _ (source : PageSource) where
  abbrev pub after_kfree : Option Heap → Heap → Heap
  after_kfree none h = h
  after_kfree (some h') h = h'

  -- The heap of heap.rs with its pages. kfree of an address without a header is outside what
  -- Allocator asks.
  abbrev pub kernel_heap : NodeHeap
  kernel_heap = record {
    State = Heap × source.State;
    kmalloc = λ size (h, st). let r = Heap.kmalloc source size h st in (r.0, (r.1, r.2));
    kfree = λ ptr (h, st). (after_kfree (Heap.kfree ptr h) h, st);
  }

  pub kernel_frees :
      (h : Heap) (p : ℕ)
      → IsHeap h
      → (((n : ℕ) → ¬ Live p n h.blocks) → ⊥)
      → let h' = after_kfree (Heap.kfree p h) h in
        IsHeap h'
        × ((q : ℕ) → ((n : ℕ) → ¬ Live q n h'.blocks) → ((n : ℕ) → ¬ Live q n h.blocks) ⊎ (q ≡ p))
  kernel_frees h p v used = elim (Live-cases p h.blocks) [
    | inr gone ↦ absurd (used gone)
    | inl (n, l) ↦
        let (h', e, f) = kfree-Freed p n h v l in
        rw e (
          f.keeps,
          λ q out. elim (ℕ_discrete q p) [
            | yes same ↦ inr same
            | no ne ↦ inl (λ m k. out m ((f.others q m).1 (k, ne)))
          ],
        )
  ]

  abbrev pub IsUnused : ℕ → Heap → Type 0
  IsUnused q h = (n : ℕ) → ¬ Live q n h.blocks

  pub kernel_gives :
      (size : ℕ) (h : Heap) (st : source.State)
      → size + 8 ≤ 2 ^ 32
      → IsHeap h
      → let (p, h', st') = Heap.kmalloc source size h st in
        IsHeap h'
        × ((q : ℕ) → IsUnused q h' → IsUnused q h)
        × ((p ≡ 0) ⊎ ((0 < p) × IsUnused p h × (IsUnused p h' → ⊥)))
  kernel_gives size h st fits good =
      let o = kmalloc-Outcome source size h st fits good in
      let p = (Heap.kmalloc source size h st).0 in
      elim (Bool-cases (p == 0)) [
        | inl z ↦ let e = ==→eq p 0 z in (o.keeps, λ q out n l. out n ((o.fails e q n).1 l), inl e)
        | inr nz ↦
            let a = o.gives (ground arith) in
            (
              o.keeps,
              λ q out n l. out n (a.keeps q n l),
              inr (ground arith, a.new, λ out. out a.bytes a.here),
            )
      ]

  -- heap.rs keeps the contract.
  abbrev pub kernel_allocator : Allocator kernel_heap
  kernel_allocator = record {
    IsGood = λ (h, st). IsHeap h;
    Free = λ (h, st) q. IsUnused q h;
    gives = λ size (h, st) fits good. kernel_gives size h st fits good;
    frees = λ (h, st) p good used. kernel_frees h p good used;
  }
