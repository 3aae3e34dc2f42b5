-- ===== src/Ramfs/OnHeap.antt =====
-- create_file_in of src/ramfs.rs on the heap of src/heap.rs.
use sysrust.Heap.{Heap}
use sysrust.Vfs.{Vfs}
