-- ===== src/Initrd.antt =====
-- The initial RAM disk of src/initrd.rs. Memory is bytes by address; FILES below FILE_COUNT is a list.
pub mod Image
pub mod Tests
use sysrust.Common.{
  ℕ, zero, suc, ◌+◌, ◌-◌, ◌*◌, ◌/◌, ◌%◌, ◌^◌, Bool, true, false, ◌||◌, not, Option, none, some,
  List, [], ◌∷◌, ◌++◌, ◌==◌, ltb, leb, if◌then◌else◌, Table, store, find_from, length,
}
use sysrust.Vfs.{
  Vfs, NodeHeap, FileFn, zeroed, shortened, vfs_file, node_size, same_name, add_child,
}
use sysrust.Ramfs.{bytes_from, clamped}

abbrev pub initrd_max_files : ℕ
initrd_max_files = 64

-- The name is the array of 64 bytes.
pub record InitrdFile : Type 0 where
  pub name : List ℕ
  pub size : ℕ
  pub data_ptr : ℕ

-- A u32 in memory, the low byte first.
abbrev pub word_at : Table ℕ → ℕ → ℕ
word_at mem p = mem p + mem (p + 1) * 2 ^ 8 + mem (p + 2) * 2 ^ 16 + mem (p + 3) * 2 ^ 24

-- The bytes before the terminator of a name.
abbrev pub name_of : List ℕ → List ℕ
name_of [] = []
name_of (c ∷ cs) = if c == 0 then [] else c ∷ name_of cs

-- The loop of `init`, from `ptr` on.
unfoldable pub read_files : (n ptr : ℕ) → Table ℕ → List InitrdFile
unfolding bytes_from
read_files zero ptr mem = []
read_files (suc n) ptr mem =
    let size = word_at mem (ptr + 64) in
    record { name = bytes_from mem 63 ptr ++ (0 ∷ []); size = size; data_ptr = ptr + 68 }
    ∷ read_files n (ptr + 68 + size) mem

-- From the flags and the modules of the boot information; `mod_start` is the first module's.
unfoldable pub init : (flags mods_count mod_start : ℕ) → Table ℕ → List InitrdFile
unfolding read_files
init flags mods_count mod_start mem =
    let count = word_at mem mod_start in
    if (flags / 2 ^ 3 % 2 == 0) || (mods_count == 0)
    then []
    else read_files (if ltb initrd_max_files count then initrd_max_files else count) (mod_start + 4)
        mem

unfoldable pub get_file : (index : ℕ) → List InitrdFile → Option InitrdFile
get_file index [] = none
get_file zero (f ∷ fs) = some f
get_file (suc index) (f ∷ fs) = get_file index fs

unfoldable pub find : (name : List ℕ) → List InitrdFile → Option InitrdFile
find name [] = none
find name (f ∷ fs) =
    let rest = find name fs in if same_name (name_of f.name) name then some f else rest

-- The bytes that a read gives.
unfoldable pub initrd_vfs_read : (offset size : ℕ) → InitrdFile → Table ℕ → List ℕ
unfolding bytes_from
initrd_vfs_read offset size f mem =
    if leb f.size offset
    then []
    else bytes_from mem (clamped offset size f.size) (f.data_ptr + offset)

module _ (heap : NodeHeap) where
  open heap use {State, kmalloc}

  -- The loop of `init_vfs`; entry `index` of FILES is at `table + index * entry_size`.
  unfoldable pub init_vfs :
      (root table entry_size index : ℕ) → List InitrdFile → Vfs → State → Vfs × State
  init_vfs root table entry_size index [] s st = (s, st)
  init_vfs root table entry_size index (f ∷ fs) s st =
      let (node, st1) = kmalloc node_size st in
      let file = record zeroed {
        name = shortened 63 (name_of f.name);
        flags = vfs_file;
        size = f.size;
        inode = index;
        read_fn = some FileFn.initrd_file;
        private_data = table + index * entry_size;
      } in
      let s1 = (add_child root node (record s { nodes = store s.nodes node file })).1 in
      init_vfs root table entry_size (index + 1) fs (if node == 0 then s else s1) st1
