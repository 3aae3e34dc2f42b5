-- ===== src/Vfs/Freeing.antt =====
-- What unlink of src/vfs.rs frees with a node, on the heap of src/heap.rs.
use sysrust.Common.{
  ℕ, ◌≡◌, ◌≢◌, ◌⊎◌, ◌↔◌, Option, none, some, ◌==◌, if◌then◌else◌, arith, refl, sym, Bool-cases, inl,
  inr, ==→eq, Table,
}
use sysrust.Heap.{Heap, kfree}
use sysrust.Heap.Contents.{Live}
use sysrust.Heap.Expand.{IsHeap}
use sysrust.Heap.RoundTrip.{kfree-Freed}
use sysrust.Vfs.{Vfs}

-- `first_word` is the word of memory at an address, which `unlink` takes for the pointer to the data,
-- whatever the node is.
module _ (first_word : Table ℕ) where
  -- kfree of the data that the private data begins with, if any, and of the private data.
  unfoldable pub free_data : (private_data : ℕ) → Heap → Option Heap
  free_data private_data h =
      let data_ptr = first_word private_data in
      let freed : Option Heap = if data_ptr == 0 then some h else kfree data_ptr h in
      elim freed [ none ↦ none | some h' ↦ kfree private_data h' ]

  -- The blocks of a node; `none` where kfree is called on an address at which no header stands, of
  -- which nothing is known.
  unfoldable pub free_node : (child : ℕ) → Vfs → Heap → Option Heap
  unfolding free_data
  free_node child s h =
      let private_data = (s.nodes child).private_data in
      let freed : Option Heap = if private_data == 0 then some h else free_data private_data h in
      elim freed [ none ↦ none | some h' ↦ kfree child h' ]

-- The addresses of the blocks that `unlink` frees with a node.
abbrev pub IsBlockOf : (first_word : Table ℕ) (c private_data q : ℕ) → Type 0
IsBlockOf first_word c private_data q =
    (q ≡ c)
    ⊎ ((private_data ≢ 0)
        × ((q ≡ private_data) ⊎ ((first_word private_data ≢ 0) × (q ≡ first_word private_data))))

-- A node is an allocation, and so are, apart from it, its private data and the data that they begin
-- with, unless they are null: as ramfs.rs leaves its files and vfs.rs its directories.
pub record OwnsBlocks (first_word : Table ℕ) (c private_data : ℕ) (h : Heap) : Type 0 where
  pub node : (n : ℕ) × Live c n h.blocks
  pub contents :
      private_data ≢ 0
      → ((n : ℕ) × Live private_data n h.blocks)
        × (private_data ≢ c)
        × (first_word private_data ≢ 0
            → ((n : ℕ) × Live (first_word private_data) n h.blocks)
              × (first_word private_data ≢ c)
              × (first_word private_data ≢ private_data))

-- kfree ended with the heap well formed and exactly the allocations at some addresses gone.
abbrev pub FreedAll : (IsGone : ℕ → Type 0) (h : Heap) → Option Heap → Type 0
FreedAll IsGone h o =
    (h' : Heap) × (o ≡ some h')
    × IsHeap h'
    × ((q n : ℕ) → Live q n h'.blocks ↔ (Live q n h.blocks × ¬ IsGone q))

kfree-FreedAll :
    (p n : ℕ) (h : Heap) → IsHeap h → Live p n h.blocks → FreedAll (λ q. q ≡ p) h (kfree p h)
kfree-FreedAll p n h v l = let (h', e, f) = kfree-Freed p n h v l in (h', e, f.keeps, f.others)

module _ (first_word : Table ℕ) (c : ℕ) where
  free_data-FreedAll :
      (pd : ℕ) (h : Heap)
      → IsHeap h
      → pd ≢ 0
      → OwnsBlocks first_word c pd h
      → FreedAll
          (λ q. (q ≡ pd) ⊎ ((first_word pd ≢ 0) × (q ≡ first_word pd)))
          h
          (free_data first_word pd h)
  unfolding free_data
  free_data-FreedAll pd h v ne o =
      let ((n, l), _, more) = o.contents ne in
      elim (Bool-cases (first_word pd == 0)) [
        | inl z ↦
            let (h', e, good, left) = kfree-FreedAll pd n h v l in
            (
              h',
              rw (free_data, z, e) refl,
              good,
              λ q m. (
                λ k.
                    let (old, ne') = (left q m).0 k in
                    (old, λ g. elim g [ inl at ↦ ne' at | inr at ↦ at.0 (==→eq _ 0 z) ]),
                λ k. (left q m).1 (k.0, λ at. k.1 (inl at)),
              ),
            )
        | inr nz ↦
            let some_word : first_word pd ≢ 0 = ground arith in
            let ((m, k), _, apart) = more some_word in
            let (h1, e1, good1, left1) = kfree-FreedAll (first_word pd) m h v k in
            let (h2, e2, good2, left2) =
              kfree-FreedAll pd n h1 good1 ((left1 pd n).1 (l, λ at. apart (sym at))) in
            (
              h2,
              rw (free_data, nz, e1, e2) refl,
              good2,
              λ q j. (
                λ a.
                    let (b, out2) = (left2 q j).0 a in
                    let (old, out1) = (left1 q j).0 b in
                    (old, λ g. elim g [ inl at ↦ out2 at | inr at ↦ out1 at.1 ]),
                λ a.
                    (left2 q j).1
                      ((left1 q j).1 (a.0, λ at. a.1 (inr (some_word, at))), λ at. a.1 (inl at)),
              ),
            )
      ]

  pub free_node-Freed :
      (s : Vfs) (h : Heap)
      → IsHeap h
      → OwnsBlocks first_word c (s.nodes c).private_data h
      → FreedAll (IsBlockOf first_word c (s.nodes c).private_data) h (free_node first_word c s h)
  unfolding free_node
  free_node-Freed s h v o =
      let pd = (s.nodes c).private_data in
      let (n, l) = o.node in
      elim (Bool-cases (pd == 0)) [
        | inl z ↦
            let (h', e, good, left) = kfree-FreedAll c n h v l in
            (
              h',
              rw (free_node, z, e) refl,
              good,
              λ q m. (
                λ k.
                    let (old, ne) = (left q m).0 k in
                    (old, λ g. elim g [ inl at ↦ ne at | inr at ↦ at.0 (==→eq _ 0 z) ]),
                λ k. (left q m).1 (k.0, λ at. k.1 (inl at)),
              ),
            )
        | inr nz ↦
            let some_data : pd ≢ 0 = ground arith in
            let (_, apart, word) = o.contents some_data in
            let (h1, e1, good1, left1) = free_data-FreedAll pd h v some_data o in
            let stays : ¬ ((c ≡ pd) ⊎ ((first_word pd ≢ 0) × (c ≡ first_word pd))) =
              λ g. elim g [ inl at ↦ apart (sym at) | inr at ↦ (word at.0).1 (sym at.1) ] in
            let (h2, e2, good2, left2) = kfree-FreedAll c n h1 good1 ((left1 c n).1 (l, stays)) in
            (
              h2,
              rw (free_node, nz, e1, e2) refl,
              good2,
              λ q j. (
                λ a.
                    let (b, out2) = (left2 q j).0 a in
                    let (old, out1) = (left1 q j).0 b in
                    (old, λ g. elim g [ inl at ↦ out2 at | inr at ↦ out1 at.1 ]),
                λ a.
                    (left2 q j).1
                      ((left1 q j).1 (a.0, λ at. a.1 (inr (some_data, at))), λ at. a.1 (inl at)),
              ),
            )
      ]
