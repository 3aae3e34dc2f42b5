-- ===== src/Ramfs.antt =====
-- Reading and writing a file of src/ramfs.rs. The buffer is a table of bytes; create_file_in, the
-- only maker of files, gives it 256 bytes, so that a file always has a buffer.
pub mod Growth
pub mod Nodes
pub mod OnHeap
pub mod Tests
pub mod Writing
use sysrust.Common.{
  ℕ, zero, suc, ◌+◌, ◌-◌, ◌*◌, ◌%◌, ◌^◌, ◌≡◌, ◌≤◌, List, [], ◌∷◌, Bool, true, false, ◌&&◌, Option,
  some, none, ltb, leb, ◌==◌, if◌then◌else◌, length, Table,
}

-- The VFS node's size field is kept equal to `size`.
pub record RamfsFile : Type 0 where
  pub buffer : Table ℕ
  pub size : ℕ
  pub capacity : ℕ

-- A file as `create_file_in` makes it.
abbrev pub created : RamfsFile
created = record { buffer = λ i. 0; size = 0; capacity = 256 }

-- memcpy out of the buffer: `n` bytes from index `i` on.
unfoldable pub bytes_from : Table ℕ → (n i : ℕ) → List ℕ
bytes_from b zero i = []
bytes_from b (suc n) i = b i ∷ bytes_from b n (i + 1)

-- memcpy into the buffer at `at`.
unfoldable pub overwrite : Table ℕ → (at : ℕ) → List ℕ → Table ℕ
overwrite b at [] = b
overwrite b at (x ∷ xs) = λ i. if i == at then x else overwrite b (at + 1) xs i

-- The number of bytes that a read gives, after both tests.
abbrev pub clamped : (offset size file_size : ℕ) → ℕ
clamped offset size file_size =
    let sz = if ltb (2 ^ 32 - 1 - offset) size then file_size - offset else size in
    if ltb file_size ((offset + sz) % 2 ^ 32) then file_size - offset else sz

unfoldable pub ramfs_read : (offset size : ℕ) → RamfsFile → List ℕ
unfolding bytes_from
ramfs_read offset size f =
    if leb f.size offset then [] else bytes_from f.buffer (clamped offset size f.size) offset

-- while new_cap < needed { new_cap *= 2 }, on fuel; u32 arithmetic. `none` is out of fuel.
unfoldable pub grow : (fuel new_cap needed : ℕ) → Option ℕ
grow zero new_cap needed = none
grow (suc fuel) new_cap needed =
    let rest = grow fuel (new_cap * 2 % 2 ^ 32) needed in
    if ltb new_cap needed then rest else some new_cap

-- `running` is the loop that has not ended, `failed` the result -1.
pub data WriteResult : Type 0 where
  running : WriteResult
  failed : WriteResult
  wrote : RamfsFile → WriteResult

-- The zeroed new buffer with the old bytes.
abbrev pub enlarged : (new_cap : ℕ) → RamfsFile → RamfsFile
enlarged new_cap f = record f {
  buffer = λ i. if ltb i f.size then f.buffer i else 0;
  capacity = new_cap;
}

-- The copy and the new size.
unfoldable pub put_bytes : (offset : ℕ) → List ℕ → RamfsFile → RamfsFile
unfolding overwrite
put_bytes offset bytes f = record f {
  buffer = overwrite f.buffer offset bytes;
  size = if ltb f.size (offset + length bytes) then offset + length bytes else f.size;
}

-- `granted` says whether kmalloc returns a buffer of the size asked for.
unfoldable pub ramfs_write :
    (fuel : ℕ) (granted : ℕ → Bool) (offset : ℕ) → List ℕ → RamfsFile → WriteResult
unfolding grow put_bytes
ramfs_write fuel granted offset bytes f =
    let needed = offset + length bytes in
    let start = if ltb f.capacity 256 then 256 else f.capacity in
    if ltb (2 ^ 32 - 1 - offset) (length bytes)
    then failed
    else if ltb f.capacity needed
    then elim (grow fuel start needed) [
      | none ↦ running
      | some new_cap ↦
          if granted new_cap then wrote (put_bytes offset bytes (enlarged new_cap f)) else failed
    ]
    else wrote (put_bytes offset bytes f)
