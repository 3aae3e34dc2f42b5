-- ===== src/Vfs/Starting.antt =====
-- The calls of src/vfs.rs that reach into the other parts: readdir, finddir_root and init.
use sysrust.Common.{ℕ, Option, none, some, List, [], ◌∷◌, ◌==◌, if◌then◌else◌, Table}
use sysrust.Vfs.{Vfs, NodeHeap, chosen, default_readdir, finddir, make_dir}
use sysrust.Vfs.Descriptors.{FdEntry, empty_entry}
use sysrust.Initrd.{InitrdFile, init_vfs}
use sysrust.Devfs.{devfs_readdir}

-- `disk_entry` is readdir on the disk.
unfoldable pub readdir : (disk_entry : ℕ → ℕ) (dir index : ℕ) → Vfs → ℕ
readdir disk_entry dir index s =
    let called =
      chosen (s.nodes dir).readdir_fn (default_readdir dir index s) (devfs_readdir dir index s)
        (disk_entry index) in
    if dir == 0 then 0 else called

unfoldable pub finddir_root : (disk : List ℕ → ℕ) (name : List ℕ) → Vfs → Option ℕ
finddir_root disk name s =
    let node = finddir disk s.root name s in if node == 0 then none else some node

-- The files of the initial RAM disk are entries of `entry_size` bytes at `table`.
unfoldable pub init :
    (heap : NodeHeap) (files : List InitrdFile) (table entry_size : ℕ)
    → Vfs
    → heap.State
    → Vfs × Table FdEntry × heap.State
init heap files table entry_size s st =
    let fds : Table FdEntry = λ i. empty_entry in
    let (root, s1, st1) = make_dir heap (47 ∷ []) s st in
    let s2 : Vfs = record s1 { root = root } in
    let (s3, st3) = init_vfs heap root table entry_size 0 files s2 st1 in
    let (s4, st4) = sysrust.Devfs.init heap root s3 st3 in
    if root == 0 then (s2, fds, st1) else (s4, fds, st4)
