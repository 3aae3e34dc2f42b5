-- ===== src/Vfs/Trees.antt =====
-- What src/vfs.rs asks of the heap, and the trees of its nodes.
use sysrust.Common.{
  ℕ, ◌+◌, ◌^◌, ◌≡◌, ◌≤◌, ◌<◌, Bool, true, false, List, ◌==◌, length, refl, ap, ◌∙◌, sym, Bool-cases,
  inl, inr, Table, ◌⊎◌,
}
use sysrust.Vfs.{Vfs, NodeHeap, finddir, scan}
use sysrust.Vfs.Lookup.{is_plain, looks, finddir-scan, AllLive, live-nonzero, scan-live}

-- What is asked of the heap: null, or a block that was free; freeing a block that is in use leaves
-- the others in use.
pub record Allocator (heap : NodeHeap) : Type 1 where
  pub IsGood : heap.State → Type 0
  pub Free : heap.State → ℕ → Type 0
  pub gives :
      (size : ℕ) (st : heap.State)
      → size + 8 ≤ 2 ^ 32
      → IsGood st
      → let (p, st') = heap.kmalloc size st in
        IsGood st'
        × ((q : ℕ) → Free st' q → Free st q)
        × ((p ≡ 0) ⊎ ((0 < p) × Free st p × (Free st' p → ⊥)))
  pub frees :
      (st : heap.State) (p : ℕ)
      → IsGood st
      → (Free st p → ⊥)
      → IsGood (heap.kfree p st) × ((q : ℕ) → Free (heap.kfree p st) q → Free st q ⊎ (q ≡ p))

-- The nodes in the tree: no directory of the disk, and at most 128 children, which are in the tree.
pub record IsVfs (live : Table Bool) (s : Vfs) : Type 0 where
  pub null : live 0 ≡ false
  pub at_root : live s.root ≡ true
  pub plain : (d : ℕ) → live d ≡ true → is_plain (s.nodes d) ≡ true
  pub below : (d : ℕ) → live d ≡ true → AllLive live (s.nodes d).children
  pub bounded : (d : ℕ) → live d ≡ true → length (s.nodes d).children ≤ 128

module _ (disk : List ℕ → ℕ) where
  -- Every name that a directory of the tree had, it still has.
  pub record Keeps (live : Table Bool) (s : Vfs) (live' : Table Bool) (s' : Vfs) : Type 0 where
    pub same_root : s'.root ≡ s.root
    pub lives : (d : ℕ) → live d ≡ true → live' d ≡ true
    pub finds :
        (d : ℕ) (name : List ℕ)
        → live d ≡ true
        → (finddir disk d name s == 0) ≡ false
        → finddir disk d name s' ≡ finddir disk d name s

  pub Keeps-refl : (live : Table Bool) (s : Vfs) → Keeps live s live s
  Keeps-refl live s = record { same_root = refl; lives = λ d h. h; finds = λ d name h nz. refl }

  pub Keeps-trans :
      (live : Table Bool) (s : Vfs) (live1 : Table Bool) (s1 : Vfs) (live2 : Table Bool) (s2 : Vfs)
      → Keeps live s live1 s1
      → Keeps live1 s1 live2 s2
      → Keeps live s live2 s2
  Keeps-trans live s live1 s1 live2 s2 a b = record {
    same_root = b.same_root ∙ a.same_root;
    lives = λ d h. b.lives d (a.lives d h);
    finds = λ d name h nz.
        let first = a.finds d name h nz in
        b.finds d name (a.lives d h) (ap (λ n. n == 0) first ∙ nz) ∙ first;
  }

  pub finddir-live :
      (live : Table Bool) (s : Vfs) (d : ℕ) (name : List ℕ)
      → IsVfs live s
      → live d ≡ true
      → (finddir disk d name s == 0) ≡ false
      → live (finddir disk d name s) ≡ true
  finddir-live live s d name v h nz =
      let e = finddir-scan disk d name s (live-nonzero live v.null d h) (v.plain d h) in
      elim (Bool-cases (looks (s.nodes d))) [
        | inr f ↦ absurd (cc (rw (e, f) at nz))
        | inl t ↦
            let e' : finddir disk d name s ≡ scan s.nodes name (s.nodes d).children = rw t at e in
            ap live e'
            ∙ scan-live live v.null s.nodes name (s.nodes d).children (v.below d h)
                (ap (λ n. n == 0) (sym e') ∙ nz)
      ]
