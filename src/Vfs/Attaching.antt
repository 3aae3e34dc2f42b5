-- ===== src/Vfs/Attaching.antt =====
-- Giving a new node of src/vfs.rs to a directory of a tree, or failing to.
use sysrust.Common.{
  [], ℕ, ◌≡◌, ◌<◌, Bool, true, false, ◌||◌, List, ◌==◌, leb, if◌then◌else◌, length, refl, ap, ◌∙◌,
  sym, Bool-cases, inl, inr, Table, store, store-miss, ◌⊎◌,
}
use sysrust.Vfs.{Vfs, VfsNode, finddir, is_directory, add_child}
use sysrust.Vfs.Lookup.{is_plain, looks, finddir-scan, live-nonzero, scan-same}
use sysrust.Vfs.Trees.{IsVfs, Keeps}
use sysrust.Vfs.Making.{add_child-added, added, added-IsVfs, added-Keeps, finddir-added, added-new}

module _ (disk : List ℕ → ℕ) (live : Table Bool) (s : Vfs) (dir : ℕ) (node : VfsNode)
    (v : IsVfs live s) (fresh : live dir ≡ false) where
  -- A node that is not in the tree.
  abbrev pub beside : Vfs
  beside = record s { nodes = store s.nodes dir node }

  pub kept : (d : ℕ) → live d ≡ true → beside.nodes d ≡ s.nodes d
  kept d hd = store-miss s.nodes dir d node (λ e. cc (hd, ap live e, fresh))

  pub beside-IsVfs : IsVfs live beside
  beside-IsVfs = record {
    null = v.null;
    at_root = v.at_root;
    plain = λ d hd. rw (kept d hd) (v.plain d hd);
    below = λ d hd. rw (kept d hd) (v.below d hd);
    bounded = λ d hd. rw (kept d hd) (v.bounded d hd);
  }

  pub beside-Keeps : Keeps disk live s live beside
  beside-Keeps = record {
    same_root = refl;
    lives = λ d h. h;
    finds = λ d name hd nz.
        let old =
          scan-same live v.null s.nodes beside.nodes name (s.nodes d).children (v.below d hd)
            (λ c hc. ap (λ (n : VfsNode). n.name) (kept c hc)) in
        finddir-scan disk d name beside (live-nonzero live v.null d hd)
          (rw (kept d hd) (v.plain d hd))
        ∙ rw (kept d hd) (ap (λ k. if looks (s.nodes d) then k else 0) old)
        ∙ sym (finddir-scan disk d name s (live-nonzero live v.null d hd) (v.plain d hd));
  }

-- A node that is no directory, or has no room, takes no child.
add_child_refused :
    (parent child : ℕ) (s : Vfs)
    → (is_directory (s.nodes parent).flags ≡ false)
      ⊎ (leb 128 (length (s.nodes parent).children) ≡ true)
    → add_child parent child s ≡ (false, s)
unfolding add_child
add_child_refused parent child s why = elim (Bool-cases ((parent == 0) || (child == 0))) [
  | inl t ↦ rw (add_child, t) refl
  | inr f ↦ elim (Bool-cases (is_directory (s.nodes parent).flags)) [
    | inr d ↦ rw (add_child, f, d) refl
    | inl d ↦ elim why [ inl e ↦ absurd (cc (d, e)) | inr full ↦ rw (add_child, f, d, full) refl ]
  ]
]

module _ (disk : List ℕ → ℕ) (live : Table Bool) (s : Vfs) (cur : ℕ) (name : List ℕ)
    (v : IsVfs live s) (at : live cur ≡ true) (missing : (finddir disk cur name s == 0) ≡ true)
    (dir : ℕ) (node : VfsNode) (fresh : live dir ≡ false) (positive : 0 < dir)
    (leaf : node.children ≡ []) (simple : is_plain node ≡ true) (named : node.name ≡ name) where
  -- The node is in the tree, under its name; or nothing of the tree changed.
  pub record Attached (o : Bool × Vfs) : Type 0 where
    pub result :
        ((o.0 ≡ false) × (o.1 ≡ beside disk live s dir node v fresh))
        ⊎ ((o.0 ≡ true)
            × IsVfs (store live dir true) o.1
            × Keeps disk live s (store live dir true) o.1
            × (finddir disk cur name o.1 ≡ dir)
            × (o.1.nodes dir ≡ record node { parent = cur }))

  refused :
      (is_directory ((beside disk live s dir node v fresh).nodes cur).flags ≡ false)
        ⊎ (leb 128 (length ((beside disk live s dir node v fresh).nodes cur).children) ≡ true)
      → Attached (add_child cur dir (beside disk live s dir node v fresh))
  refused why = record {
    result = inl (
      ap (λ (o : Bool × Vfs). o.0)
          (add_child_refused cur dir (beside disk live s dir node v fresh) why),
      ap (λ (o : Bool × Vfs). o.1)
          (add_child_refused cur dir (beside disk live s dir node v fresh) why),
    );
  }

  pub add_child-Attached : Attached (add_child cur dir (beside disk live s dir node v fresh))
  add_child-Attached =
      let same = kept disk live s dir node v fresh cur at in
      elim (Bool-cases (is_directory (s.nodes cur).flags)) [
        | inr f ↦ refused (inl (rw same f))
        | inl directory ↦ elim (Bool-cases (leb 128 (length (s.nodes cur).children))) [
          | inl full ↦ refused (inr (rw same full))
          | inr room ↦
              let none_yet = ap (λ n. finddir disk cur n s == 0) named ∙ missing in
              let s' =
                added disk live s cur dir node v at directory fresh positive leaf simple none_yet
                  room in
              rw
                (add_child-added disk live s cur dir node v at directory fresh positive leaf simple
                  none_yet room)
                (record {
                  result = inr (
                    refl,
                    added-IsVfs disk live s cur dir node v at directory fresh positive leaf simple
                        none_yet room,
                    added-Keeps disk live s cur dir node v at directory fresh positive leaf simple
                        none_yet room,
                    ap (λ n. finddir disk cur n s') (sym named)
                        ∙ finddir-added disk live s cur dir node v at directory fresh positive leaf
                            simple none_yet room,
                    added-new disk live s cur dir node v at directory fresh positive leaf simple
                        none_yet room,
                  );
                })
        ]
      ]
