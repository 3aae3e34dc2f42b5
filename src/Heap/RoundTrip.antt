-- ===== src/Heap/RoundTrip.antt =====
-- `kfree` of heap.rs: what it does to the allocations, and that it undoes `kmalloc`.
use sysrust.Common.{
  ℕ, ◌+◌, ◌-◌, ◌^◌, ◌<◌, ◌≡◌, ◌≢◌, ◌↔◌, inl, inr, true, false, some, [], ◌∷◌, ◌++◌, arith, refl,
  ◌==◌, sym, ◌∙◌,
}
use sysrust.Heap.{
  PageSource, kmalloc, Block, Blocks, Heap, heap_start, header_size, min_split, null, aligned,
  first_fit, kfree, release, coalesce,
}
use sysrust.Heap.Tiling.{Tiled, Tiled-le, coalesce-Tiled}
use sysrust.Heap.Replace.{
  Replaced, first_fit-Fitted, Replaced-Tiled, release-Released, Released, Tiled-prefix,
}
use sysrust.Heap.Fit.{try_alloc-Carved}
use sysrust.Heap.Contents.{
  Live, Live-range, Replaced-Live, coalesce-Live, free-not-Live, Replaced-range,
}
use sysrust.Heap.Coalesce.{IsCoalesced, coalesce-IsCoalesced, coalesce_idle, coalesce_split}
use sysrust.Heap.Expand.{IsHeap, heap_end}

-- The header of an allocation is found, and is not free.
release-Live :
    (bs : Blocks) (p n a e : ℕ)
    → Tiled a bs e
    → Live p n bs
    → (bs' : Blocks) × (release (p - header_size) bs ≡ some (false, bs'))
unfolding release
release-Live [] p n a e t l = absurd l
release-Live (b ∷ bs) p n a e t l = elim l [
  | inl here ↦
      let at : (b.addr == (p - header_size)) ≡ true = ground arith in
      (record b { is_free = true } ∷ bs, rw (release, at, here.0))
  | inr more ↦
      let range = Live-range p n bs _ e t.2 more in
      let away : (b.addr == (p - header_size)) ≡ false = ground (arith, range) in
      let (bs', found) = release-Live bs p n _ e t.2 more in (b ∷ bs', rw (release, away, found))
]

-- The allocation at `p` is gone, every other one is there, and no two free headers are neighbours.
pub record Freed (p : ℕ) (h h' : Heap) : Type 0 where
  pub keeps : IsHeap h'
  pub others : (q m : ℕ) → Live q m h'.blocks ↔ (Live q m h.blocks × (q ≢ p))
  pub coalesced : IsCoalesced h'.blocks

reverse : {bs bs' : Blocks} {b c : Block} → Replaced bs bs' b (c ∷ []) → Replaced bs' bs c (b ∷ [])
reverse r = record { front = r.front; back = r.back; before = r.after; after = r.before }

kfree-Freed_of :
    (p : ℕ) (h : Heap) (bs' : Blocks)
    → IsHeap h
    → header_size < p
    → Released (p - header_size) false h.blocks bs'
    → Freed p h (record h { blocks = coalesce bs' })
kfree-Freed_of p h bs' v low r =
    let small : heap_end h < 2 ^ 32 = omega (arith, v.bounded) in
    let tiled : Tiled heap_start bs' (heap_end h) =
      Replaced-Tiled heap_start (heap_end h) r.replaced (λ m at size room. (at, size, refl))
        v.tiled in
    let place : r.block.addr + header_size ≡ p = omega (arith, r.place) in
    record {
      keeps = record {
        tiled = coalesce-Tiled bs' heap_start (heap_end h) small tiled;
        bounded = v.bounded;
        mapped = v.mapped;
      };
      others = λ q m. (
        λ l.
            let l' = (coalesce-Live q m bs').0 l in
            (
              elim ((Replaced-Live q m r.replaced).0 l') [
                | inl k ↦ elim k [ inl f ↦ cc | inr f ↦ absurd f ]
                | inr old ↦ old
              ],
              λ e.
                  free-not-Live m heap_start (heap_end h) (reverse r.replaced) refl tiled
                    (rw (e ∙ sym place) at l'),
            ),
        λ (l, ne). (coalesce-Live q m bs').1 (elim ((Replaced-Live q m r.replaced).1 l) [
          | inl k ↦ elim k [ inl f ↦ absurd (ne (omega (arith, f.1, place))) | inr f ↦ absurd f ]
          | inr kept ↦ kept
        ]),
      );
      coalesced = coalesce-IsCoalesced bs' heap_start (heap_end h) small tiled;
    }

-- On a well-formed heap, kfree of the address of an allocation succeeds, leaves the heap well
-- formed, takes away the allocation at that address and no other, and leaves no two free headers
-- next to each other.
pub kfree-Freed :
    (p n : ℕ) (h : Heap)
    → IsHeap h
    → Live p n h.blocks
    → (h' : Heap) × (kfree p h ≡ some h') × Freed p h h'
unfolding kfree
kfree-Freed p n h v l =
    let (bs', found) = release-Live h.blocks p n heap_start (heap_end h) v.tiled l in
    let range = Live-range p n h.blocks heap_start (heap_end h) v.tiled l in
    let some_ptr : (p == null) ≡ false = ground (arith, range) in
    (
      record h { blocks = coalesce bs' },
      rw (kfree, some_ptr, found),
      kfree-Freed_of p h bs' v (omega (arith, range))
          (release-Released h.blocks (p - header_size) false bs' found),
    )

-- The header at `c.addr` in a tiling is `c`.
release_at :
    (front : Blocks) (c : Block) (back : Blocks) (a m : ℕ)
    → Tiled a front m
    → c.addr ≡ m
    → c.is_free ≡ false
    → release c.addr (front ++ (c ∷ back))
      ≡ some (false, front ++ (record c { is_free = true } ∷ back))
unfolding release
release_at [] c back a m t at used = ground arith
release_at (b ∷ front) c back a m t at used =
    let away : (b.addr == c.addr) ≡ false = ground (arith, Tiled-le front _ m t.2) in
    rw (release, away, release_at front c back _ m t.2 at used)

-- What freeing the block that the search handed out leaves, before merging.
abbrev Unsplit : (ptr : ℕ) (bs bs' : Blocks) → Type 0
Unsplit ptr bs bs' =
    (bs'' : Blocks) × (release (ptr - header_size) bs' ≡ some (false, bs''))
    × (coalesce bs'' ≡ coalesce bs)

first_fit-Unsplit :
    (bs : Blocks) (n ptr : ℕ) (bs' : Blocks) (a e : ℕ)
    → first_fit n bs ≡ some (ptr, bs')
    → e + header_size + min_split < 2 ^ 32
    → Tiled a bs e
    → Unsplit ptr bs bs'
first_fit-Unsplit bs n ptr bs' a e h small t =
    let f = first_fit-Fitted bs n ptr bs' h in
    let b = f.block in
    let r = f.replaced in
    let range = Replaced-range a e r t in
    let c = try_alloc-Carved b n ptr f.here (omega (arith, range)) f.taken in
    let t' : Tiled a (r.front ++ (b ∷ r.back)) e = rw r.before at t in
    let (m, u, v) = Tiled-prefix r.front (b ∷ r.back) a e t' in
    let place : ptr - header_size ≡ b.addr = omega (arith, c.pointer) in
    elim c.shape [
      | inl whole ↦
          let same : record b { is_free = true } ≡ b = ground (arith, c.was_free) in
          (
            r.front ++ (record b { is_free = true } ∷ r.back),
            rw (r.after, whole.1, place)
                (release_at r.front (record b { is_free = false }) r.back a m u v.0 refl),
            rw (r.before, same),
          )
      | inr split ↦
          let b1 : Block = record { addr = b.addr; size = n; is_free = false } in
          let b2 : Block = record {
            addr = b.addr + header_size + n;
            size = b.size - n - header_size;
            is_free = true;
          } in
          (
            r.front ++ (record b1 { is_free = true } ∷ b2 ∷ r.back),
            rw (r.after, split.1, place) (release_at r.front b1 (b2 ∷ r.back) a m u v.0 refl),
            rw r.before (
                coalesce_split r.front b (record b1 { is_free = true }) b2 r.back a e (omega arith)
                  (record {
                    free = c.was_free;
                    free1 = refl;
                    free2 = refl;
                    start = refl;
                    middle = refl;
                    sizes = omega arith;
                  })
                  t'),
          )
    ]

kfree_of :
    (ptr : ℕ) (h : Heap) (bs : Blocks)
    → (ptr == null) ≡ false
    → release (ptr - header_size) h.blocks ≡ some (false, bs)
    → kfree ptr h ≡ some (record h { blocks = coalesce bs })
unfolding kfree
kfree_of ptr h bs some_ptr released = rw (kfree, some_ptr, released)

module _ (source : PageSource) where
  open source use {State}

  kmalloc_hit :
      (size ptr : ℕ) (h : Heap) (st : State) (bs : Blocks)
      → size ≢ 0
      → first_fit (aligned size) h.blocks ≡ some (ptr, bs)
      → kmalloc source size h st ≡ (ptr, record h { blocks = bs }, st)
  unfolding kmalloc
  kmalloc_hit size ptr h st bs ne e =
      let positive : (size == 0) ≡ false = ground arith in rw (kmalloc, positive, e)

  -- On a well-formed heap, when a block of the list fits a request of non-zero size, kfree of the
  -- pointer that kmalloc returns succeeds and gives the heap as it was before the call with its
  -- free neighbours merged: the split is undone.
  pub kfree-kmalloc :
      (size ptr : ℕ) (h : Heap) (st : State) (bs : Blocks)
      → size ≢ 0
      → IsHeap h
      → first_fit (aligned size) h.blocks ≡ some (ptr, bs)
      → kfree (kmalloc source size h st).0 (kmalloc source size h st).1
        ≡ some (record h { blocks = coalesce h.blocks })
  kfree-kmalloc size ptr h st bs ne v e =
      let small : heap_end h + header_size + min_split < 2 ^ 32 = omega (arith, v.bounded) in
      let f = first_fit-Fitted h.blocks (aligned size) ptr bs e in
      let range = Replaced-range heap_start (heap_end h) f.replaced v.tiled in
      let c = try_alloc-Carved f.block (aligned size) ptr f.here (omega (arith, range)) f.taken in
      let (bs'', released, same) =
        first_fit-Unsplit h.blocks (aligned size) ptr bs heap_start (heap_end h) e small v.tiled in
      let some_ptr : (ptr == null) ≡ false = ground (arith, c.pointer) in
      rw (kmalloc_hit size ptr h st bs ne e)
        (kfree_of ptr (record h { blocks = bs }) bs'' some_ptr released ∙ rw same)

  -- On a heap whose free neighbours are merged it gives back that very heap.
  pub kfree-kmalloc_exact :
      (size ptr : ℕ) (h : Heap) (st : State) (bs : Blocks)
      → size ≢ 0
      → IsHeap h
      → IsCoalesced h.blocks
      → first_fit (aligned size) h.blocks ≡ some (ptr, bs)
      → kfree (kmalloc source size h st).0 (kmalloc source size h st).1 ≡ some h
  kfree-kmalloc_exact size ptr h st bs ne v merged e =
      let idle =
        coalesce_idle h.blocks heap_start (heap_end h) (omega (arith, v.bounded)) v.tiled merged in
      kfree-kmalloc size ptr h st bs ne v e ∙ rw idle
