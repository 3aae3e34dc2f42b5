-- ===== src/Vfs/HeapTests.antt =====
-- Runs of the file system of src/vfs.rs on a heap of src/heap.rs, and the theorems at them.
use sysrust.Common.{
  ℕ, ◌+◌, ◌*◌, ◌≡◌, Bool, true, false, ◌==◌, [], ◌∷◌, if◌then◌else◌, Table, store, arith, refl,
  Bool-cases, inl, inr, some, ◌↔◌, ◌⊎◌,
}
use sysrust.Heap.{Block, Heap, PageSource, heap_start}
use sysrust.Heap.Contents.{Live}
use sysrust.Heap.Expand.{IsHeap}
use sysrust.Vfs.{Vfs, zeroed, new_dir, vfs_file, scan}
use sysrust.Vfs.Trees.{IsVfs}
use sysrust.Vfs.Entering.{IsReady}
use sysrust.Vfs.Created.{Created}
use sysrust.Vfs.OnHeap.{kernel_heap, kernel_allocator}
use sysrust.Vfs.Freeing.{IsBlockOf, OwnsBlocks}
use sysrust.Vfs.Unlinking.{unlink, Unlinked, unlink-Unlinked}
use sysrust.Vfs.Tests.{no_disk}

-- Pages from 16 MiB on, one after another.
abbrev pub from_16m : PageSource
from_16m = record { State = ℕ; alloc_page = λ n. (0x0100_0000 + n * 4096, n + 1) }

abbrev block : ℕ → ℕ → Bool → Block
block a n f = record { addr = a; size = n; is_free = f }

-- The addresses of the root, of a file in it, and of the file's private data and data.
abbrev pub root_at : ℕ
root_at = heap_start + 16

abbrev file_at : ℕ
file_at = heap_start + 1192

abbrev private_at : ℕ
private_at = heap_start + 2368

abbrev data_at : ℕ
data_at = heap_start + 2400

abbrev pub four_blocks : Heap
four_blocks = record {
  blocks =
      block heap_start 1160 false
      ∷ block (heap_start + 1176) 1160 false
      ∷ block (heap_start + 2352) 16 false
      ∷ block (heap_start + 2384) 256 false
      ∷ block (heap_start + 2656) 1424 true
      ∷ [];
  pages = 1;
  mappings = (heap_start, 0x0100_0000) ∷ [];
}

four_blocks-IsHeap : IsHeap four_blocks
four_blocks-IsHeap = record {
  tiled = (refl, refl, (refl, refl, (refl, refl, (refl, refl, (refl, refl, refl)))));
  bounded = omega arith;
  mapped = (omega arith, refl, omega arith, refl);
}

-- The root with the file "a".
abbrev pub one_file : Vfs
one_file = record {
  nodes =
      store (store (λ q. zeroed) root_at (record (new_dir (47 ∷ [])) { children = file_at ∷ [] }))
        file_at
        (record zeroed {
          name = 97 ∷ [];
          flags = vfs_file;
          parent = root_at;
          private_data = private_at;
        });
  root = root_at;
}

abbrev pub its_nodes : Table Bool
its_nodes d = if d == root_at then true else (d == file_at)

its_nodes-cases : (d : ℕ) → its_nodes d ≡ true → (d ≡ root_at) ⊎ (d ≡ file_at)
its_nodes-cases d h = ground arith

one_file-IsVfs : IsVfs its_nodes one_file
one_file-IsVfs = record {
  null = refl;
  at_root = refl;
  plain = λ d h. elim (its_nodes-cases d h) [ inl e ↦ rw e refl | inr e ↦ rw e refl ];
  below = λ d h. elim (its_nodes-cases d h) [ inl e ↦ rw e (refl, tt) | inr e ↦ rw e tt ];
  bounded =
      λ d h. elim (its_nodes-cases d h) [ inl e ↦ rw e (omega arith) | inr e ↦ rw e (omega arith) ];
}

unused-outside : (q : ℕ) → ((n : ℕ) → ¬ Live q n four_blocks.blocks) → its_nodes q ≡ false
unused-outside q out = elim (Bool-cases (its_nodes q)) [
  | inr f ↦ f
  | inl t ↦ elim (its_nodes-cases q t) [
    | inl e ↦ absurd (out 1160 (rw e (inl (refl, refl, refl))))
    | inr e ↦ absurd (out 1160 (rw e (inr (inl (refl, refl, refl)))))
  ]
]

pub one_file-IsReady :
    IsReady no_disk
      (kernel_heap from_16m)
      (kernel_allocator from_16m)
      its_nodes
      one_file
      (four_blocks, 1)
one_file-IsReady = record {
  tree = one_file-IsVfs;
  good = four_blocks-IsHeap;
  apart = unused-outside;
}

abbrev words : Table ℕ
words a = if a == private_at then data_at else 0

file-OwnsBlocks : OwnsBlocks words file_at private_at four_blocks
file-OwnsBlocks = record {
  node = (1160, inr (inl (refl, refl, refl)));
  contents = λ ne. (
    (16, inr (inr (inl (refl, refl, refl)))),
    omega arith,
    λ some_data. ((256, inr (inr (inr (inl (refl, refl, refl))))), omega arith, omega arith),
  );
}

unlink-Unlinked_example :
    (r : Bool × Vfs × Heap) × (unlink words root_at (97 ∷ []) one_file four_blocks ≡ some r)
    × Unlinked no_disk root_at (97 ∷ []) one_file r.0 r.1
    × IsHeap r.2
    × (let c = scan one_file.nodes (97 ∷ []) (file_at ∷ []) in
        (q n : ℕ)
        → Live q n r.2.blocks ↔ (
            Live q n four_blocks.blocks
            × (r.0 ≡ true → ¬ IsBlockOf words c (one_file.nodes c).private_data q)))
unlink-Unlinked_example =
    unlink-Unlinked no_disk its_nodes root_at one_file one_file-IsVfs refl refl words (97 ∷ [])
      four_blocks four_blocks-IsHeap (λ ne. file-OwnsBlocks)
