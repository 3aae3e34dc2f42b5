-- ===== src/Ramfs/Nodes.antt =====
-- Making files and directories in src/ramfs.rs, whose root is that of src/vfs.rs. The data of a file is
-- a RamfsFile at the address in its node.
use sysrust.Common.{
  ℕ, ◌≡◌, ◌≢◌, Bool, true, false, not, List, ◌==◌, some, if◌then◌else◌, Table, store, store-hit,
  arith, refl, ap, ◌∙◌, inl, inr, Bool-cases,
}
use sysrust.Vfs.{
  Vfs, VfsNode, NodeHeap, FileFn, DirFn, zeroed, shortened, vfs_file, vfs_directory, node_size,
  finddir, add_child, is_directory,
}
use sysrust.Vfs.Lookup.{live-nonzero}
use sysrust.Vfs.Trees.{Allocator, Keeps-refl, finddir-live}
use sysrust.Vfs.Attaching.{beside, add_child-Attached}
use sysrust.Vfs.Entering.{
  stays_used, IsReady, Entered, unchanged, beside-Entered, freed, attached-Entered,
}
use sysrust.Ramfs.{RamfsFile, created}

-- size_of::<RamfsFileData>()
abbrev pub data_size : ℕ
data_size = 16

-- The node of a file, and of a directory, before it has a parent.
abbrev pub new_file : (name : List ℕ) (private_data : ℕ) → VfsNode
new_file name private_data = record zeroed {
  name = shortened 63 name;
  flags = vfs_file;
  read_fn = some FileFn.ramfs_file;
  write_fn = some FileFn.ramfs_file;
  private_data = private_data;
}

abbrev pub new_ramfs_dir : (name : List ℕ) → VfsNode
new_ramfs_dir name = record zeroed {
  name = shortened 63 name;
  flags = vfs_directory;
  readdir_fn = some DirFn.ramfs_dir;
  finddir_fn = some DirFn.ramfs_dir;
}

module _ (disk : List ℕ → ℕ) (heap : NodeHeap) where
  open heap use {State, kmalloc, kfree}

  -- The node, or null; the nodes, the data of the files, and the heap.
  unfoldable pub create_file_in :
      (parent : ℕ)
      → (name : List ℕ) → Vfs
      → Table RamfsFile
      → State
      → ℕ × Vfs × Table RamfsFile × State
  create_file_in parent name s files st =
      let existing = finddir disk parent name s in
      let (node, st1) = kmalloc node_size st in
      let (fd, st2) = kmalloc data_size st1 in
      let (data_buf, st3) = kmalloc 256 st2 in
      let bare = record s { nodes = store s.nodes node (new_file name 0) } in
      let filled = record s { nodes = store s.nodes node (new_file name fd) } in
      let files' = store files fd created in
      let (added, s') = add_child parent node filled in
      if parent == 0
      then (0, s, files, st)
      else if not (existing == 0)
      then (existing, s, files, st)
      else if node == 0
      then (0, s, files, st1)
      else if fd == 0
      then (0, bare, files, kfree node st2)
      else if data_buf == 0
      then (0, bare, files, kfree node (kfree fd st3))
      else if not added
      then (0, s', files', kfree node (kfree fd (kfree data_buf st3)))
      else (node, s', files', st3)

  unfoldable pub create_dir_in : (parent : ℕ) → (name : List ℕ) → Vfs → State → ℕ × Vfs × State
  create_dir_in parent name s st =
      let existing = finddir disk parent name s in
      let (node, st1) = kmalloc node_size st in
      let placed = record s { nodes = store s.nodes node (new_ramfs_dir name) } in
      let (added, s') = add_child parent node placed in
      if parent == 0
      then (0, s, st)
      else if not (existing == 0)
      then (if is_directory (s.nodes existing).flags then (existing, s, st) else (0, s, st))
      else if node == 0
      then (0, s, st1)
      else if not added
      then (0, s', kfree node st1)
      else (node, s', st1)

  -- Under RAMFS_ROOT.
  abbrev pub create_file :
      (name : List ℕ) → Vfs → Table RamfsFile → State → ℕ × Vfs × Table RamfsFile × State
  create_file name s files st = create_file_in s.root name s files st

  abbrev pub create_dir : (name : List ℕ) → Vfs → State → ℕ × Vfs × State
  create_dir name s st = create_dir_in s.root name s st

module _ (disk : List ℕ → ℕ) (heap : NodeHeap) (allocator : Allocator heap) where
  open heap use {State, kmalloc, kfree}
  open allocator use {IsGood, Free, gives, frees}

  -- What create_file_in did: the node found, or a new one with an empty file, or nothing.
  pub record FileMade (parent : ℕ) (name : List ℕ) (live : Table Bool) (s : Vfs)
      (files : Table RamfsFile) (r : ℕ × Vfs × Table RamfsFile × State) : Type 0 where
    pub entered : Entered disk heap allocator parent name live s (r.0, r.1, r.3)
    pub found :
        (finddir disk parent name s == 0) ≡ false
        → (r.0 ≡ finddir disk parent name s) × (r.1 ≡ s) × (r.2 ≡ files)
    pub empty :
        (finddir disk parent name s == 0) ≡ true
        → r.0 ≢ 0
        → r.2 (r.1.nodes r.0).private_data ≡ created

  module _ (parent : ℕ) (name : List ℕ) (live : Table Bool) (s : Vfs) (files : Table RamfsFile)
      (st : State) (v : IsReady disk heap allocator live s st) (at : live parent ≡ true)
      (short : shortened 63 name ≡ name) where
    nothing_made :
        (s' : Vfs) (files' : Table RamfsFile) (st' : State)
        → (finddir disk parent name s == 0) ≡ true
        → Entered disk heap allocator parent name live s (0, s', st')
        → FileMade parent name live s files (0, s', files', st')
    nothing_made s' files' st' missing e = record {
      entered = e;
      found = λ nz. absurd (cc (missing, nz));
      empty = λ z ne. absurd (ne refl);
    }

    -- In a node of a tree of nodes without the directory of the disk, on a heap that keeps to its
    -- contract, and for a name of at most 63 bytes, create_file_in leaves such a tree and heap in
    -- which every name still leads to the same node; if the name was found it returns that node
    -- and changes nothing; otherwise it returns null, or a node that the name then leads to and
    -- whose data is an empty file of capacity 256.
    pub create_file_in-FileMade :
        FileMade parent name live s files (create_file_in disk heap parent name s files st)
    unfolding create_file_in
    create_file_in-FileMade =
        let nz = live-nonzero live v.tree.null parent at in
        let (node, st1) = kmalloc node_size st in
        let (fd, st2) = kmalloc data_size st1 in
        let (data_buf, st3) = kmalloc 256 st2 in
        let (good1, shrinks1, given1) = gives node_size st (omega arith) v.good in
        let (good2, shrinks2, given2) = gives data_size st1 (omega arith) good1 in
        let (good3, shrinks3, given3) = gives 256 st2 (omega arith) good2 in
        let apart1 : (q : ℕ) → Free st1 q → live q ≡ false = λ q h. v.apart q (shrinks1 q h) in
        let apart2 : (q : ℕ) → Free st2 q → live q ≡ false = λ q h. apart1 q (shrinks2 q h) in
        let apart3 : (q : ℕ) → Free st3 q → live q ≡ false = λ q h. apart2 q (shrinks3 q h) in
        elim (Bool-cases (finddir disk parent name s == 0)) [
          | inr there ↦
              rw (create_file_in, nz, there)
                (record {
                  entered = record {
                    live1 = live;
                    ready = v;
                    keeps = Keeps-refl disk live s;
                    result = inr (finddir-live disk live s parent name v.tree at there, refl);
                  };
                  found = λ h. (refl, refl, refl);
                  empty = λ z. absurd (cc (z, there));
                })
          | inl missing ↦ elim given1 [
            | inl z ↦
                rw (create_file_in, nz, missing, z)
                  (nothing_made s files st1 missing (
                    unchanged disk heap allocator parent name live s st1
                      (record { tree = v.tree; good = good1; apart = apart1 })))
            | inr (pos1, free1, taken1) ↦
                let fresh = v.apart node free1 in
                let n1 : (node == 0) ≡ false = ground arith in
                elim given2 [
                  | inl z ↦
                      let (g, out) =
                        freed disk heap allocator live node st2 good2 fresh
                          (λ h. taken1 (shrinks2 node h)) apart2 in
                      rw (create_file_in, nz, missing, n1, z)
                        (nothing_made (beside disk live s node (new_file name 0) v.tree fresh) files
                          (kfree node st2) missing
                          (beside-Entered disk heap allocator parent name live s v.tree node
                            (new_file name 0) fresh (kfree node st2) g out))
                  | inr (pos2, free2, taken2) ↦
                      let n2 : (fd == 0) ≡ false = ground arith in
                      let node_used : Free st3 node → ⊥ =
                        λ h. taken1 (shrinks2 node (shrinks3 node h)) in
                      let fd_used : Free st3 fd → ⊥ = λ h. taken2 (shrinks3 fd h) in
                      let node_fd : node ≢ fd = λ e. taken1 (rw e free2) in
                      elim given3 [
                        | inl z ↦
                            let (g, out) =
                              freed disk heap allocator live fd st3 good3 (apart1 fd free2) fd_used
                                apart3 in
                            let (g', out') =
                              freed disk heap allocator live node (kfree fd st3) g fresh
                                (stays_used disk heap allocator fd node st3 good3 fd_used node_used
                                  node_fd)
                                out in
                            rw (create_file_in, nz, missing, n1, n2, z)
                              (nothing_made (beside disk live s node (new_file name 0) v.tree fresh)
                                files (kfree node (kfree fd st3)) missing
                                (beside-Entered disk heap allocator parent name live s v.tree node
                                  (new_file name 0) fresh (kfree node (kfree fd st3)) g' out'))
                        | inr (pos3, free3, taken3) ↦
                            let n3 : (data_buf == 0) ≡ false = ground arith in
                            let filled = new_file name fd in
                            let o =
                              add_child-Attached disk live s parent name v.tree at missing node
                                filled fresh pos1 refl refl short in
                            elim o.result [
                              | inl (refused, same) ↦
                                  let (g, out) =
                                    freed disk heap allocator live data_buf st3 good3
                                      (apart2 data_buf free3) taken3 apart3 in
                                  let fd_used' =
                                    stays_used disk heap allocator data_buf fd st3 good3 taken3
                                      fd_used (λ e. taken2 (rw e free3)) in
                                  let node_used' =
                                    stays_used disk heap allocator data_buf node st3 good3 taken3
                                      node_used (λ e. taken1 (shrinks2 node (rw e free3))) in
                                  let (g', out') =
                                    freed disk heap allocator live fd (kfree data_buf st3) g
                                      (apart1 fd free2) fd_used' out in
                                  let (g'', out'') =
                                    freed disk heap allocator live node
                                      (kfree fd (kfree data_buf st3)) g' fresh
                                      (stays_used disk heap allocator fd node (kfree data_buf st3) g
                                        fd_used' node_used' node_fd)
                                      out' in
                                  rw (create_file_in, nz, missing, n1, n2, n3, refused, same)
                                    (nothing_made (beside disk live s node filled v.tree fresh)
                                      (store files fd created)
                                      (kfree node (kfree fd (kfree data_buf st3))) missing
                                      (beside-Entered disk heap allocator parent name live s v.tree
                                        node filled fresh
                                        (kfree node (kfree fd (kfree data_buf st3))) g'' out''))
                              | inr (room, tree, keeps, found, new) ↦
                                  let s' =
                                    (add_child parent node
                                      (beside disk live s node filled v.tree fresh)).1 in
                                  rw (create_file_in, nz, missing, n1, n2, n3, room)
                                    (record {
                                      entered =
                                          attached-Entered disk heap allocator parent name live s s'
                                            node st3 tree keeps found good3 apart3
                                            (λ h. taken1 (shrinks2 node (shrinks3 node h)));
                                      found = λ h. absurd (cc (missing, h));
                                      empty = λ z ne.
                                          ap
                                            (λ (n : VfsNode). store files fd created n.private_data)
                                            new
                                          ∙ store-hit files fd created;
                                    })
                            ]
                      ]
                ]
          ]
        ]
