-- ===== src/Vfs/Entering.antt =====
-- One round of mkdir_p in src/vfs.rs: a lookup, or mkdir on the tree.
use sysrust.Common.{
  ℕ, ◌≡◌, ◌≢◌, Bool, true, false, List, ◌==◌, arith, refl, ◌∙◌, Bool-cases, inl, inr, Table, store,
  store-hit, store-miss, ◌⊎◌,
}
use sysrust.Vfs.{
  Vfs, VfsNode, NodeHeap, finddir, shortened, is_directory, new_dir, add_child, make_dir, mkdir,
  node_size,
}
use sysrust.Vfs.Lookup.{live-nonzero}
use sysrust.Vfs.Trees.{Allocator, IsVfs, Keeps, Keeps-refl, finddir-live}
use sysrust.Vfs.Paths.{enter}
use sysrust.Vfs.Attaching.{beside, beside-IsVfs, beside-Keeps, add_child-Attached}

module _ (disk : List ℕ → ℕ) (heap : NodeHeap) (allocator : Allocator heap) where
  open heap use {State, kmalloc, kfree}
  open allocator use {IsGood, Free, gives, frees}

  -- A tree, and a heap whose free blocks are not in it.
  pub record IsReady (live : Table Bool) (s : Vfs) (st : State) : Type 0 where
    pub tree : IsVfs live s
    pub good : IsGood st
    pub apart : (q : ℕ) → Free st q → live q ≡ false

  -- A lookup or a new directory, or a failure.
  pub record Entered (cur : ℕ) (name : List ℕ) (live : Table Bool) (s : Vfs) (r : ℕ × Vfs × State)
      : Type 0 where
    pub live1 : Table Bool
    pub ready : IsReady live1 r.1 r.2
    pub keeps : Keeps disk live s live1 r.1
    pub result : (r.0 ≡ 0) ⊎ ((live1 r.0 ≡ true) × (finddir disk cur name r.1 ≡ r.0))

  pub unchanged :
      (cur : ℕ) (name : List ℕ) (live : Table Bool) (s : Vfs) (st : State)
      → IsReady live s st
      → Entered cur name live s (0, s, st)
  unchanged cur name live s st v = record {
    live1 = live;
    ready = v;
    keeps = Keeps-refl disk live s;
    result = inl refl;
  }

  -- The tree with a node beside it, whatever blocks were freed since.
  pub beside-Entered :
      (cur : ℕ) (name : List ℕ) (live : Table Bool) (s : Vfs) (v : IsVfs live s) (dir : ℕ)
      (node : VfsNode) (fresh : live dir ≡ false) (st' : State)
      → IsGood st'
      → ((q : ℕ) → Free st' q → live q ≡ false)
      → Entered cur name live s (0, beside disk live s dir node v fresh, st')
  beside-Entered cur name live s v dir node fresh st' good apart = record {
    live1 = live;
    ready = record { tree = beside-IsVfs disk live s dir node v fresh; good = good; apart = apart };
    keeps = beside-Keeps disk live s dir node v fresh;
    result = inl refl;
  }

  -- Freeing blocks that are not in the tree.
  pub freed :
      (live : Table Bool) (p : ℕ) (st : State)
      → IsGood st
      → live p ≡ false
      → (Free st p → ⊥)
      → ((q : ℕ) → Free st q → live q ≡ false)
      → IsGood (kfree p st) × ((q : ℕ) → Free (kfree p st) q → live q ≡ false)
  freed live p st good out used apart =
      let (good', became) = frees st p good used in
      (good', λ q h. elim (became q h) [ inl old ↦ apart q old | inr e ↦ rw e out ])

  -- A block in use stays in use when another one is freed.
  pub stays_used :
      (p q : ℕ) (st : State)
      → IsGood st
      → (Free st p → ⊥)
      → (Free st q → ⊥)
      → q ≢ p
      → Free (kfree p st) q
      → ⊥
  stays_used p q st good used used' ne f = elim ((frees st p good used).1 q f) [
    | inl old ↦ used' old
    | inr e ↦ ne e
  ]

  -- A new node of the tree.
  pub attached-Entered :
      (cur : ℕ) (name : List ℕ) (live : Table Bool) (s s' : Vfs) (dir : ℕ) (st' : State)
      → IsVfs (store live dir true) s'
      → Keeps disk live s (store live dir true) s'
      → finddir disk cur name s' ≡ dir
      → IsGood st'
      → ((q : ℕ) → Free st' q → live q ≡ false)
      → (Free st' dir → ⊥)
      → Entered cur name live s (dir, s', st')
  attached-Entered cur name live s s' dir st' tree keeps found good apart taken = record {
    live1 = store live dir true;
    ready = record {
      tree = tree;
      good = good;
      apart = λ q h. store-miss live dir q true (λ e. taken (rw e at h)) ∙ apart q h;
    };
    keeps = keeps;
    result = inr (store-hit live dir true, found);
  }

  module _ (cur : ℕ) (name : List ℕ) (live : Table Bool) (s : Vfs) (st : State)
      (v : IsReady live s st) (at : live cur ≡ true) (short : shortened 63 name ≡ name)
      (missing : (finddir disk cur name s == 0) ≡ true) where
    mkdir-Entered : Entered cur name live s (mkdir disk heap cur name s st)
    unfolding mkdir make_dir
    mkdir-Entered =
        let nz = live-nonzero live v.tree.null cur at in
        let (good, shrinks, given) = gives node_size st (omega arith) v.good in
        let (dir, st') = kmalloc node_size st in
        let apart' : (q : ℕ) → Free st' q → live q ≡ false = λ q h. v.apart q (shrinks q h) in
        elim (Bool-cases (is_directory (s.nodes cur).flags)) [
          | inr f ↦ rw (mkdir, nz, f) (unchanged cur name live s st v)
          | inl directory ↦ elim given [
            | inl z ↦
                rw (mkdir, make_dir, nz, directory, missing, z)
                  (unchanged cur name live s st'
                    (record { tree = v.tree; good = good; apart = apart' }))
            | inr (positive, was_free, taken) ↦
                let fresh = v.apart dir was_free in
                let pz : (dir == 0) ≡ false = ground arith in
                let o =
                  add_child-Attached disk live s cur name v.tree at missing dir (new_dir name) fresh
                    positive refl refl short in
                elim o.result [
                  | inl (no_room, same) ↦
                      let (good', apart'') = freed live dir st' good fresh taken apart' in
                      rw (mkdir, make_dir, nz, directory, missing, pz, pz, no_room, same)
                        (beside-Entered cur name live s v.tree dir (new_dir name) fresh
                          (kfree dir st') good' apart'')
                  | inr (room, tree, keeps, found, _) ↦
                      rw (mkdir, make_dir, nz, directory, missing, pz, pz, room)
                        (attached-Entered cur name live s
                          (add_child cur dir (beside disk live s dir (new_dir name) v.tree fresh)).1
                          dir st' tree keeps found good apart' taken)
                ]
          ]
        ]

  pub enter-Entered :
      (cur : ℕ) (name : List ℕ) (live : Table Bool) (s : Vfs) (st : State)
      → IsReady live s st
      → live cur ≡ true
      → shortened 63 name ≡ name
      → Entered cur name live s (enter disk heap cur name s st)
  unfolding enter
  enter-Entered cur name live s st v at short = elim (Bool-cases (finddir disk cur name s == 0)) [
    | inl missing ↦ rw (enter, missing) (mkdir-Entered cur name live s st v at short missing)
    | inr found ↦
        rw (enter, found)
          (record {
            live1 = live;
            ready = v;
            keeps = Keeps-refl disk live s;
            result = inr (finddir-live disk live s cur name v.tree at found, refl);
          })
  ]
