-- ===== src/Vfs/Making.antt =====
-- mkdir of src/vfs.rs on a tree of nodes: it stays one, and every name that was found still is.
use sysrust.Common.{
  ℕ, ◌≡◌, ◌≢◌, ◌≤◌, ◌<◌, Bool, true, false, ◌||◌, List, [], ◌∷◌, ◌++◌, ◌==◌, leb, if◌then◌else◌,
  length, length-append, arith, refl, ap, ◌∙◌, sym, Table, store, store-hit, store-miss,
}
use native.Mathlib.Decide.{ℕ_discrete}
use sysrust.Vfs.{Vfs, VfsNode, finddir, scan, same_name, is_directory, linked, add_child}
use sysrust.Vfs.Lookup.{
  is_plain, looks, looks-directory, finddir-scan, AllLive, live-nonzero, scan-same, scan-append,
  AllLive-append, AllLive-kept, same_name_refl,
}
use sysrust.Vfs.Trees.{IsVfs, Keeps}

module _ (parent child : ℕ) (nodes : Table VfsNode) where
  abbrev with_child : VfsNode
  with_child = record (nodes parent) { children = (nodes parent).children ++ (child ∷ []) }

  abbrev under : VfsNode
  under = record (store nodes parent with_child child) { parent = parent }

  linked-parent : parent ≢ child → linked parent child nodes parent ≡ with_child
  linked-parent apart =
      store-miss (store nodes parent with_child) child parent under apart
      ∙ store-hit nodes parent with_child

  linked-child :
      parent ≢ child → linked parent child nodes child ≡ record (nodes child) { parent = parent }
  linked-child apart =
      store-hit (store nodes parent with_child) child under
      ∙ ap (λ (p : VfsNode). record p { parent = parent })
          (store-miss nodes parent child with_child (λ e. apart (sym e)))

  linked-other : (d : ℕ) → d ≢ parent → d ≢ child → linked parent child nodes d ≡ nodes d
  linked-other d np nc =
      store-miss (store nodes parent with_child) child d under nc
      ∙ store-miss nodes parent d with_child np

module _ (disk : List ℕ → ℕ) where
  -- A new node under a directory with room.
  module _ (live : Table Bool) (s : Vfs) (parent dir : ℕ) (node : VfsNode) (v : IsVfs live s)
      (h : live parent ≡ true) (directory : is_directory (s.nodes parent).flags ≡ true)
      (fresh : live dir ≡ false) (positive : 0 < dir) (leaf : node.children ≡ [])
      (simple : is_plain node ≡ true) (missing : (finddir disk parent node.name s == 0) ≡ true)
      (room : leb 128 (length (s.nodes parent).children) ≡ false) where
    abbrev pub placed : Vfs
    placed = record s { nodes = store s.nodes dir node }

    abbrev pub added : Vfs
    added = record s { nodes = linked parent dir (store s.nodes dir node) }

    abbrev pub live' : Table Bool
    live' = store live dir true

    apart : (d : ℕ) → live d ≡ true → d ≢ dir
    apart d hd e = cc (hd, ap live e, fresh)

    pub lives' : (d : ℕ) → live d ≡ true → live' d ≡ true
    lives' d hd = store-miss live dir d true (apart d hd) ∙ hd

    placed-parent : placed.nodes parent ≡ s.nodes parent
    placed-parent = store-miss s.nodes dir parent node (apart parent h)

    pub add_child-added : add_child parent dir placed ≡ (true, added)
    unfolding add_child
    add_child-added =
        let nz : ((parent == 0) || (dir == 0)) ≡ false =
          ground (arith, live-nonzero live v.null parent h) in
        rw (add_child, nz, placed-parent, directory, room) refl

    at_parent :
        added.nodes parent
        ≡ record (s.nodes parent) { children = (s.nodes parent).children ++ (dir ∷ []) }
    at_parent =
        linked-parent parent dir placed.nodes (apart parent h)
        ∙ ap (λ (p : VfsNode). record p { children = p.children ++ (dir ∷ []) }) placed-parent

    pub added-new : added.nodes dir ≡ record node { parent = parent }
    added-new =
        linked-child parent dir placed.nodes (apart parent h)
        ∙ ap (λ (p : VfsNode). record p { parent = parent }) (store-hit s.nodes dir node)

    elsewhere : (d : ℕ) → live d ≡ true → d ≢ parent → added.nodes d ≡ s.nodes d
    elsewhere d hd np =
        linked-other parent dir placed.nodes d np (apart d hd)
        ∙ store-miss s.nodes dir d node (apart d hd)

    -- A property of the nodes that holds of the old ones, the parent and the new one.
    every :
        (P : VfsNode → Type 0)
        → P (record (s.nodes parent) { children = (s.nodes parent).children ++ (dir ∷ []) })
        → P (record node { parent = parent })
        → ((d : ℕ) → live d ≡ true → P (s.nodes d))
        → (d : ℕ) → live' d ≡ true
        → P (added.nodes d)
    every P at_p at_n old d hd = elim (ℕ_discrete d dir) [
      | yes e ↦ rw (e, added-new) at_n
      | no nd ↦ elim (ℕ_discrete d parent) [
        | yes e ↦ rw (e, at_parent) at_p
        | no np ↦
            let hd' : live d ≡ true = sym (store-miss live dir d true nd) ∙ hd in
            rw (elsewhere d hd' np) (old d hd')
      ]
    ]

    same_name_of : (d : ℕ) → live d ≡ true → (added.nodes d).name ≡ (s.nodes d).name
    same_name_of d hd = elim (ℕ_discrete d parent) [
      | yes e ↦ rw (e, at_parent) refl
      | no np ↦ rw (elsewhere d hd np) refl
    ]

    null' : live' 0 ≡ false
    null' = store-miss live dir 0 true (λ e. omega (arith, positive, e)) ∙ v.null

    pub added-IsVfs : IsVfs live' added
    added-IsVfs = record {
      null = null';
      at_root = lives' s.root v.at_root;
      plain = every (λ n. is_plain n ≡ true) (v.plain parent h) simple (λ d hd. v.plain d hd);
      below =
          every (λ n. AllLive live' n.children)
            (AllLive-append live' null' (s.nodes parent).children dir
              (AllLive-kept live live' (s.nodes parent).children lives' (v.below parent h))
              (store-hit live dir true))
            (rw leaf tt)
            (λ d hd. AllLive-kept live live' (s.nodes d).children lives' (v.below d hd));
      bounded =
          every (λ n. length n.children ≤ 128)
            (ground (arith, room, length-append (s.nodes parent).children (dir ∷ [])))
            (rw leaf (omega arith)) (λ d hd. v.bounded d hd);
    }

    -- What finddir gives in the parent, through the children and the new node.
    finddir-parent :
        (name : List ℕ)
        → finddir disk parent name added ≡ (
            if scan s.nodes name (s.nodes parent).children == 0
            then (if same_name node.name name then dir else 0)
            else scan s.nodes name (s.nodes parent).children)
    finddir-parent name =
        let cs = (s.nodes parent).children in
        let v' = added-IsVfs in
        let open_dir : looks (added.nodes parent) ≡ true =
          rw at_parent (looks-directory (s.nodes parent) (v.plain parent h) directory) in
        let old =
          scan-same live v.null s.nodes added.nodes name cs (v.below parent h) same_name_of in
        let new : (added.nodes dir).name ≡ node.name = rw added-new refl in
        finddir-scan disk parent name added (live-nonzero live v.null parent h)
          (v'.plain parent (lives' parent h))
        ∙ ap (λ b. if b then scan added.nodes name (added.nodes parent).children else 0) open_dir
        ∙ ap (λ (p : VfsNode). scan added.nodes name p.children) at_parent
        ∙ scan-append live v.null added.nodes name cs dir (v.below parent h)
        ∙ ap (λ k. if k == 0 then (if same_name (added.nodes dir).name name then dir else 0) else k)
            old
        ∙ ap
            (λ n.
              if scan s.nodes name cs == 0
              then (if same_name n name then dir else 0)
              else scan s.nodes name cs)
            new

    finddir-before :
        (name : List ℕ) → finddir disk parent name s ≡ scan s.nodes name (s.nodes parent).children
    finddir-before name =
        finddir-scan disk parent name s (live-nonzero live v.null parent h) (v.plain parent h)
        ∙ ap (λ b. if b then scan s.nodes name (s.nodes parent).children else 0)
            (looks-directory (s.nodes parent) (v.plain parent h) directory)

    pub finddir-added : finddir disk parent node.name added ≡ dir
    finddir-added =
        let none_before : (scan s.nodes node.name (s.nodes parent).children == 0) ≡ true =
          ap (λ k. k == 0) (sym (finddir-before node.name)) ∙ missing in
        finddir-parent node.name ∙ rw (none_before, same_name_refl node.name) refl

    pub added-Keeps : Keeps disk live s live' added
    added-Keeps = record {
      same_root = refl;
      lives = lives';
      finds = λ d name hd nz. elim (ℕ_discrete d parent) [
        | yes e ↦
            let here = finddir-before name in
            let nz' : (scan s.nodes name (s.nodes parent).children == 0) ≡ false =
              ap (λ k. k == 0) (sym here) ∙ (rw e at nz) in
            rw e (finddir-parent name ∙ rw nz' (sym here))
        | no np ↦
            let node' = elsewhere d hd np in
            let old =
              scan-same live v.null s.nodes added.nodes name (s.nodes d).children (v.below d hd)
                same_name_of in
            finddir-scan disk d name added (live-nonzero live v.null d hd) (rw node' (v.plain d hd))
            ∙ rw node' (ap (λ k. if looks (s.nodes d) then k else 0) old)
            ∙ sym (finddir-scan disk d name s (live-nonzero live v.null d hd) (v.plain d hd))
      ];
    }
