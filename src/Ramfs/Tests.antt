-- ===== src/Ramfs/Tests.antt =====
-- The model of src/ramfs.rs on concrete files.
use sysrust.Common.{ℕ, Table, ◌+◌, ◌^◌, ◌≡◌, [], ◌∷◌, true, some, none, arith, refl, inr}
use sysrust.Ramfs.{RamfsFile, created, ramfs_write, grow}
use sysrust.Ramfs.Nodes.{create_file_in}
use sysrust.Heap.{Heap}
use sysrust.Vfs.OnHeap.{kernel_heap}
use sysrust.Vfs.HeapTests.{from_16m, root_at, one_file, four_blocks}
use sysrust.Vfs.{Vfs}
use sysrust.Vfs.Tests.{no_disk}
use sysrust.Ramfs.Growth.{grow_never_ends}
use sysrust.Ramfs.Writing.{IsFile, Written, ramfs_write-Written}

created-IsFile : IsFile created
created-IsFile = (omega arith, (8, omega arith, omega arith, refl), λ i h. refl)

grown_to : grow 32 256 1000 ≡ some 1024
unfolding grow
grown_to = refl

ramfs_write-Written_example :
    Written
      (λ c. true)
      300
      (7 ∷ 8 ∷ [])
      created
      (ramfs_write 32 (λ c. true) 300 (7 ∷ 8 ∷ []) created)
ramfs_write-Written_example =
    ramfs_write-Written (λ c. true) 300 (7 ∷ 8 ∷ []) 32 created (omega arith) created-IsFile
      (omega arith)

grow_never_ends_example : grow 40 256 (2 ^ 31 + 1) ≡ none
grow_never_ends_example =
    grow_never_ends 40 256 (2 ^ 31 + 1) (inr (8, omega arith, refl)) (omega arith)

-- A file "b" in the root beside the file "a".
abbrev made_b : ℕ × Vfs × Table RamfsFile × (Heap × ℕ)
made_b =
    create_file_in no_disk (kernel_heap from_16m) root_at (98 ∷ []) one_file (λ q. created)
      (four_blocks, 1)
