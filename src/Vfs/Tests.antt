-- ===== src/Vfs/Tests.antt =====
-- Runs of the file system of src/vfs.rs, and the theorems at them.
use sysrust.Common.{
  ℕ, suc, ◌-◌, ◌^◌, ◌≡◌, ◌⊎◌, inl, inr, Bool, true, ◌==◌, Option, some, none, List, [], ◌∷◌,
  if◌then◌else◌, Table, store, arith, refl, find_from,
}
use sysrust.Vfs.{
  Vfs, NodeHeap, zeroed, new_dir, finddir, default_finddir, mkdir, make_dir, add_child,
}
use sysrust.Vfs.Trees.{IsVfs}
use sysrust.Vfs.Components.{components, descend, resolve_path-descend}
use sysrust.Vfs.Paths.{resolve_path, resolve_loop, mkdir_p, mkdir_loop, enter}
use sysrust.Vfs.Descriptors.{
  FdEntry, empty_entry, claim_fd, vfs_open, vfs_close, vfs_lseek, Opened, vfs_open-Opened, Sought,
  vfs_lseek-Sought,
}

-- A heap that hands out one address after the other.
abbrev pub bump : NodeHeap
bump = record { State = ℕ; kmalloc = λ size st. (suc st, suc st); kfree = λ ptr st. st }

abbrev pub no_disk : List ℕ → ℕ
no_disk name = 0

-- The root at address 1, with a directory "a" at 2.
abbrev pub one_dir : Vfs
one_dir = record {
  nodes =
      store (store (λ q. zeroed) 1 (record (new_dir (47 ∷ [])) { children = 2 ∷ [] })) 2
        (record (new_dir (97 ∷ [])) { parent = 1 });
  root = 1;
}

abbrev two_nodes : Table Bool
two_nodes d = if d == 1 then true else (d == 2)

two_nodes-cases : (d : ℕ) → two_nodes d ≡ true → (d ≡ 1) ⊎ (d ≡ 2)
two_nodes-cases d h = ground arith

one_dir-IsVfs : IsVfs two_nodes one_dir
one_dir-IsVfs = record {
  null = refl;
  at_root = refl;
  plain = λ d h. elim (two_nodes-cases d h) [ inl e ↦ rw e refl | inr e ↦ rw e refl ];
  below = λ d h. elim (two_nodes-cases d h) [ inl e ↦ rw e (refl, tt) | inr e ↦ rw e tt ];
  bounded =
      λ d h. elim (two_nodes-cases d h) [ inl e ↦ rw e (omega arith) | inr e ↦ rw e (omega arith) ];
}

-- "/a//b"
abbrev a_b : List ℕ
a_b = 47 ∷ 97 ∷ 47 ∷ 47 ∷ 98 ∷ []

missing_b : resolve_path no_disk 9 a_b one_dir ≡ some 0
unfolding resolve_path resolve_loop finddir default_finddir
missing_b = refl

abbrev makes_b : Option (ℕ × Vfs × ℕ) → ℕ
makes_b none = 0
makes_b (some r) = r.0

made_b : makes_b (mkdir_p no_disk bump 9 a_b one_dir 2) ≡ 3
unfolding mkdir_p mkdir_loop enter mkdir make_dir add_child finddir default_finddir
made_b = refl

resolve_path-descend_example :
    resolve_path no_disk 9 a_b one_dir ≡ some (descend no_disk (components a_b) 1 one_dir)
resolve_path-descend_example = resolve_path-descend no_disk 9 a_b one_dir (omega arith)

-- Descriptor 0 is open.
abbrev one_open : Table FdEntry
one_open = store (λ i. empty_entry) 0 (record { node = 2; offset = 7; in_use = true })

open_a : resolve_path no_disk 9 (97 ∷ []) one_dir ≡ some 2
unfolding resolve_path resolve_loop finddir default_finddir
open_a = refl

vfs_open-Opened_example :
    (r : ℕ × Table FdEntry) × (vfs_open no_disk 9 (97 ∷ []) one_dir one_open ≡ some r)
    × Opened 2 one_open r
vfs_open-Opened_example = vfs_open-Opened no_disk 9 (97 ∷ []) one_dir one_open 2 open_a

lowest_free : (claim_fd 2 one_open).0 ≡ 1
unfolding claim_fd find_from
lowest_free = refl

closes : vfs_close 0 one_open 0 ≡ empty_entry
unfolding vfs_close
closes = refl

-- Three bytes back, and past 2^32.
seeks : (vfs_lseek 0 (2 ^ 64 - 3) 1 one_dir one_open).0 ≡ 4
unfolding vfs_lseek
seeks = refl

seek_wraps :
    ((vfs_lseek 0 (2 ^ 32) 0 one_dir one_open).0 ≡ 2 ^ 32)
    × (((vfs_lseek 0 (2 ^ 32) 0 one_dir one_open).1 0).offset ≡ 0)
unfolding vfs_lseek
seek_wraps = (refl, refl)

vfs_lseek-Sought_example : Sought 0 one_open (vfs_lseek 0 (2 ^ 64 - 3) 1 one_dir one_open)
vfs_lseek-Sought_example = vfs_lseek-Sought 0 (2 ^ 64 - 3) 1 one_dir one_open
