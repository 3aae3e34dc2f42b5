-- ===== src/Vfs.antt =====
-- The virtual file system of src/vfs.rs: nodes by address (0 is null), the root, and the table of open
-- files, which Descriptors models. A name or a path is the list of the bytes before its terminator, none
-- of them 0. `children` is the part of the array below num_children.
pub mod Attaching
pub mod Components
pub mod Created
pub mod Descriptors
pub mod Entering
pub mod Freeing
pub mod HeapTests
pub mod Lookup
pub mod Making
pub mod OnHeap
pub mod Paths
pub mod Removing
pub mod Starting
pub mod Tests
pub mod Trees
pub mod Unlinking
use sysrust.Common.{
  ℕ, zero, suc, ◌+◌, ◌-◌, ◌*◌, ◌/◌, ◌%◌, ◌^◌, Bool, true, false, ◌&&◌, ◌||◌, not, Option, none,
  some, List, [], ◌∷◌, ◌++◌, ◌==◌, ltb, leb, if◌then◌else◌, Table, store, length,
}

abbrev pub vfs_file : ℕ
vfs_file = 0x01

abbrev pub vfs_directory : ℕ
vfs_directory = 0x02

abbrev pub vfs_device : ℕ
vfs_device = 0x04

abbrev pub vfs_max_children : ℕ
vfs_max_children = 128

-- size_of::<VfsNode>()
abbrev pub node_size : ℕ
node_size = 1160

-- The functions that a ReaddirFn or FinddirFn points to.
pub data DirFn : Type 0 where
  default_dir : DirFn
  ramfs_dir : DirFn
  devfs_dir : DirFn
  disk_dir : DirFn

-- The functions that a ReadFn or WriteFn points to.
pub data FileFn : Type 0 where
  ramfs_file : FileFn
  initrd_file : FileFn
  disk_file : FileFn
  null_device : FileFn
  zero_device : FileFn
  console_device : FileFn

pub record VfsNode : Type 0 where
  pub name : List ℕ
  pub flags : ℕ
  pub size : ℕ
  pub inode : ℕ
  pub read_fn : Option FileFn
  pub write_fn : Option FileFn
  pub readdir_fn : Option DirFn
  pub finddir_fn : Option DirFn
  pub private_data : ℕ
  pub children : List ℕ
  pub parent : ℕ

-- A node after memset to 0.
abbrev pub zeroed : VfsNode
zeroed = record {
  name = [];
  flags = 0;
  size = 0;
  inode = 0;
  read_fn = none;
  write_fn = none;
  readdir_fn = none;
  finddir_fn = none;
  private_data = 0;
  children = [];
  parent = 0;
}

-- The nodes and VFS_ROOT.
pub record Vfs : Type 0 where
  pub nodes : Table VfsNode
  pub root : ℕ

-- What the file system uses of the heap.
pub record NodeHeap : Type 1 where
  pub State : Type 0
  pub kmalloc : (size : ℕ) → State → ℕ × State
  pub kfree : (ptr : ℕ) → State → State

-- flags & VFS_DIRECTORY
abbrev pub is_directory : ℕ → Bool
is_directory flags = flags / 2 % 2 == 1

-- strcmp of two names gives 0.
abbrev pub same_name : List ℕ → List ℕ → Bool
same_name [] [] = true
same_name [] (y ∷ ys) = false
same_name (x ∷ xs) [] = false
same_name (x ∷ xs) (y ∷ ys) = (x == y) && same_name xs ys

-- The first 63 bytes.
abbrev pub shortened : (n : ℕ) → List ℕ → List ℕ
shortened zero xs = []
shortened (suc n) [] = []
shortened (suc n) (x ∷ xs) = x ∷ shortened n xs

abbrev pub child_at : (index : ℕ) → List ℕ → ℕ
child_at index [] = 0
child_at zero (c ∷ cs) = c
child_at (suc index) (c ∷ cs) = child_at index cs

-- The loop over the children in `default_finddir`.
abbrev pub scan : Table VfsNode → (name : List ℕ) → List ℕ → ℕ
scan nodes name [] = 0
scan nodes name (c ∷ cs) = if same_name (nodes c).name name then c else scan nodes name cs

unfoldable pub default_readdir : (dir index : ℕ) → Vfs → ℕ
default_readdir dir index s =
    if is_directory (s.nodes dir).flags
    then (if leb (length (s.nodes dir).children) index
        then 0
        else child_at index (s.nodes dir).children)
    else 0

unfoldable pub default_finddir : (dir : ℕ) → (name : List ℕ) → Vfs → ℕ
default_finddir dir name s =
    if is_directory (s.nodes dir).flags then scan s.nodes name (s.nodes dir).children else 0

-- The child at the end of the array, and the link back to the parent.
abbrev pub linked : (parent child : ℕ) → Table VfsNode → Table VfsNode
linked parent child nodes =
    let p = nodes parent in
    let nodes1 = store nodes parent (record p { children = p.children ++ (child ∷ []) }) in
    store nodes1 child (record (nodes1 child) { parent = parent })

unfoldable pub add_child : (parent child : ℕ) → Vfs → Bool × Vfs
add_child parent child s =
    if (parent == 0) || (child == 0)
    then (false, s)
    else if not (is_directory (s.nodes parent).flags)
    then (false, s)
    else if leb vfs_max_children (length (s.nodes parent).children)
    then (false, s)
    else (true, record s { nodes = linked parent child s.nodes })

-- The node that `make_dir` fills in.
abbrev pub new_dir : (name : List ℕ) → VfsNode
new_dir name = record zeroed {
  name = shortened 63 name;
  flags = vfs_directory;
  readdir_fn = some DirFn.default_dir;
  finddir_fn = some DirFn.default_dir;
}

module _ (heap : NodeHeap) where
  open heap use {State, kmalloc}

  unfoldable pub make_dir : (name : List ℕ) → Vfs → State → ℕ × Vfs × State
  make_dir name s st =
      let (dir, st') = kmalloc node_size st in
      if dir == 0
      then (0, s, st')
      else (dir, record s { nodes = store s.nodes dir (new_dir name) }, st')

-- The call of finddir_fn, given what each function returns; null without one.
abbrev pub chosen : Option DirFn → (found scanned on_disk : ℕ) → ℕ
chosen none found scanned on_disk = 0
chosen (some DirFn.default_dir) found scanned on_disk = found
chosen (some DirFn.ramfs_dir) found scanned on_disk = found
chosen (some DirFn.devfs_dir) found scanned on_disk = scanned
chosen (some DirFn.disk_dir) found scanned on_disk = on_disk

-- `disk` is the lookup of the file system on the disk.
module _ (disk : List ℕ → ℕ) where
  unfoldable pub finddir : (dir : ℕ) → (name : List ℕ) → Vfs → ℕ
  unfolding default_finddir
  finddir dir name s =
      let found =
        chosen (s.nodes dir).finddir_fn (default_finddir dir name s)
          (scan s.nodes name (s.nodes dir).children) (disk name) in
      if dir == 0 then 0 else found

  module _ (heap : NodeHeap) where
    open heap use {State, kfree}

    -- Result, nodes and heap; 0 on failure.
    unfoldable pub mkdir : (parent : ℕ) → (name : List ℕ) → Vfs → State → ℕ × Vfs × State
    mkdir parent name s st =
        let existing = finddir parent name s in
        let (dir, s1, st1) = make_dir heap name s st in
        let (added, s2) = add_child parent dir s1 in
        if parent == 0
        then (0, s, st)
        else if not (is_directory (s.nodes parent).flags)
        then (0, s, st)
        else if not (existing == 0)
        then (if is_directory (s.nodes existing).flags then (existing, s, st) else (0, s, st))
        else if dir == 0
        then (0, s1, st1)
        else if not added
        then (0, s2, kfree dir st1)
        else (dir, s2, st1)
