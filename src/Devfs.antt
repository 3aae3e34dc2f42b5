-- ===== src/Devfs.antt =====
-- The devices of src/devfs.rs. The keyboard is the sequence of the characters that getchar returns.
pub mod Console
pub mod Tests
use sysrust.Common.{
  ℕ, zero, suc, ◌+◌, ◌%◌, ◌^◌, Bool, Option, none, some, List, [], ◌∷◌, ◌==◌, ◌||◌, leb,
  if◌then◌else◌, Table, store, length,
}
use sysrust.Vfs.{
  Vfs, NodeHeap, DirFn, FileFn, VfsNode, zeroed, shortened, vfs_file, vfs_device, vfs_directory,
  node_size, add_child, scan, child_at,
}

-- The bytes that a read puts into the buffer.
abbrev pub null_read : (size : ℕ) → List ℕ
null_read size = []

abbrev pub zero_read : (size : ℕ) → List ℕ
zero_read zero = []
zero_read (suc n) = 0 ∷ zero_read n

-- From character `i` of the keyboard on, up to a newline.
unfoldable pub console_read : (size i : ℕ) → (keys : Table ℕ) → List ℕ
console_read zero i keys = []
console_read (suc n) i keys =
    let rest = console_read n (i + 1) keys in
    let c = keys i % 2 ^ 8 in if c == 10 then c ∷ [] else c ∷ rest

-- The results of the writes, and what the screen is given.
abbrev pub null_write : (bytes : List ℕ) → ℕ
null_write bytes = length bytes

abbrev pub zero_write : (bytes : List ℕ) → ℕ
zero_write bytes = length bytes

abbrev pub console_write : (bytes : List ℕ) → ℕ × List ℕ
console_write bytes = (length bytes, bytes)

unfoldable pub devfs_readdir : (dir index : ℕ) → Vfs → ℕ
devfs_readdir dir index s =
    if leb (length (s.nodes dir).children) index then 0 else child_at index (s.nodes dir).children

abbrev pub devfs_finddir : (dir : ℕ) → (name : List ℕ) → Vfs → ℕ
devfs_finddir dir name s = scan s.nodes name (s.nodes dir).children

abbrev pub device_node : (name : List ℕ) (device : FileFn) → VfsNode
device_node name device = record zeroed {
  name = shortened 63 name;
  flags = vfs_file + vfs_device;
  read_fn = some device;
  write_fn = some device;
}

abbrev pub dev_node : VfsNode
dev_node = record zeroed {
  name = 100 ∷ 101 ∷ 118 ∷ [];
  flags = vfs_directory;
  readdir_fn = some DirFn.devfs_dir;
  finddir_fn = some DirFn.devfs_dir;
}

abbrev pub null_name : List ℕ
null_name = 110 ∷ 117 ∷ 108 ∷ 108 ∷ []

abbrev pub zero_name : List ℕ
zero_name = 122 ∷ 101 ∷ 114 ∷ 111 ∷ []

abbrev pub console_name : List ℕ
console_name = 99 ∷ 111 ∷ 110 ∷ 115 ∷ 111 ∷ 108 ∷ 101 ∷ []

module _ (heap : NodeHeap) where
  open heap use {State, kmalloc}

  unfoldable pub make_device : (name : List ℕ) (device : FileFn) → Vfs → State → ℕ × Vfs × State
  make_device name device s st =
      let (node, st1) = kmalloc node_size st in
      if node == 0
      then (0, s, st1)
      else (node, record s { nodes = store s.nodes node (device_node name device) }, st1)

  unfoldable pub init : (root : ℕ) → Vfs → State → Vfs × State
  init root s st =
      let (dev_dir, st1) = kmalloc node_size st in
      let s1 = record s { nodes = store s.nodes dev_dir dev_node } in
      let (null_node, s2, st2) = make_device null_name FileFn.null_device s1 st1 in
      let (zero_node, s3, st3) = make_device zero_name FileFn.zero_device s2 st2 in
      let (console_node, s4, st4) = make_device console_name FileFn.console_device s3 st3 in
      let s5 = (add_child dev_dir null_node s4).1 in
      let s6 = (add_child dev_dir zero_node s5).1 in
      let s7 = (add_child dev_dir console_node s6).1 in
      let s8 = (add_child root dev_dir s7).1 in if dev_dir == 0 then (s, st1) else (s8, st4)
