-- ===== src/Fat16/Tests.antt =====
-- Runs of src/fat16.rs on a small disk.
use sysrust.Common.{
  ℕ, ◌≤◌, ◌+◌, ◌≡◌, ◌⊎◌, Bool, true, false, List, [], ◌∷◌, ◌++◌, map, Option, some, none, Table,
  store, arith, refl, length, find_from,
}
use sysrust.Ramfs.{bytes_from}
use sysrust.Fat16.{
  Drive, Fat16, read_each, write_each, flush_each, upper, name_to_83, name_from_83, trimmed,
}
use sysrust.Fat16.Directory.{
  set_size, set_first_cluster, same_bytes, hits, find_entry, find_free, list_each, list_files,
  get_file_count, get_file_name, get_file_size,
}
use sysrust.Fat16.Files.{
  new_entry, Read, failed, got, read_clusters, read_file, write_clusters, write_file,
}
use sysrust.Fat16.Mount.{load_fat, init}
use sysrust.Fat16.Writing.{IsFull}
use sysrust.Fat16.Target.{IsMounted, IsDirectoryFull}
use sysrust.Fat16.Found.{ReadsBack, Holds}
use sysrust.Fat16.Reading.{ended, linked}
use sysrust.Fat16.Remount.{IsBooted, init-ReadsBack}
use sysrust.Fat16.Kept.{over, taken}
use sysrust.Fat16.Others.{write_file-ReadsBack-other}
use sysrust.Fat16.Saved.{write_file-ReadsBack}
use sysrust.Fat16.Names.{name_from_83-name_to_83}
use sysrust.Fat16.Listing.{list_files_agrees, name_at, size_at, get_elem?}

-- One sector for each of the table, the directory and a cluster; the boot sector says so.
abbrev boot : Table ℕ
boot = store (store (store (store (store (store (λ i. 0) 12 2) 13 1) 14 1) 16 1) 17 16) 22 1

abbrev disk : Drive
disk = record { sectors = store (λ l i. 0) 0 boot; bad = λ l. false }

abbrev nothing : Fat16
nothing = record {
  bpb = record {
    bytes_per_sector = 0;
    sectors_per_cluster = 0;
    reserved_sectors = 0;
    num_fats = 0;
    root_entry_count = 0;
    total_sectors_16 = 0;
    total_sectors_32 = 0;
    fat_size_16 = 0;
    first_fat_sector = 0;
    first_root_sector = 0;
    root_dir_sectors = 0;
    first_data_sector = 0;
    cluster_size = 0;
  };
  fat_table = λ i. 0;
  fat_entries = 0;
  fat16_ready = false;
  drive = disk;
}

abbrev mounted : Fat16
mounted = (init true nothing).1

-- "a.c" with the bytes 7, 8 and 9
abbrev name : List ℕ
name = b'a' ∷ b'.' ∷ b'c' ∷ []

abbrev three : Table ℕ
three i = 7 + i

abbrev fs_of : Option (Bool × Fat16) → Fat16
fs_of none = nothing
fs_of (some (ok, fs)) = fs

abbrev bytes_of : Option Read → List ℕ
bytes_of none = []
bytes_of (some failed) = []
bytes_of (some (got n buf)) = bytes_from buf n 0

abbrev saved : Fat16
saved = fs_of (write_file name three 3 true 5 mounted)

mounts : (init true nothing).0 ≡ true
unfolding load_fat
mounts = refl

read_back : bytes_of (read_file name (λ i. 0) 9 true 5 saved) ≡ 7 ∷ 8 ∷ 9 ∷ []
unfolding load_fat find_entry find_free hits same_bytes write_clusters write_each flush_each
    read_clusters read_each find_from bytes_from
read_back = refl

-- The listing shows "A.C".
listed_upper : list_files saved ≡ (b'A' ∷ b'.' ∷ b'C' ∷ [], 3) ∷ []
unfolding load_fat find_entry find_free hits same_bytes write_clusters write_each flush_each
    find_from list_each trimmed
listed_upper = refl

-- A table of 65536 entries is full from the start, since the bound of the loop is 0 as a u16.
abbrev full_size : Fat16
full_size = record mounted { fat_entries = 65536 }

never_free : (write_file name three 3 true 5 full_size) ≡ some (false, full_size)
unfolding load_fat find_entry find_free hits same_bytes write_clusters find_from
never_free = refl

mounted-IsMounted : IsMounted mounted 3
unfolding load_fat
mounted-IsMounted = record {
  ready = refl;
  good = λ l. refl;
  sane = record {
    in_bytes = refl;
    positive = omega arith;
    short = omega arith;
    small = omega arith;
  };
  root_after_fats = refl;
  root_sectors = refl;
  files_after_root = refl;
}

write_file-ReadsBack_example :
    (fs' : Fat16) × (((write_file name three 3 true 65600 mounted ≡ some (true, fs'))
        × IsMounted fs' 3
        × ReadsBack name three 3 fs')
      ⊎ ((write_file name three 3 true 65600 mounted ≡ some (false, fs'))
          × (IsDirectoryFull mounted (name_to_83 name) ⊎ IsFull mounted.fat_entries fs'.fat_table)))
write_file-ReadsBack_example =
    write_file-ReadsBack name three 3 65600 mounted mounted-IsMounted (omega arith) (omega arith)
      (omega arith) (omega arith)

name_from_83-name_to_83_example :
    (name_from_83 (name_to_83 (b'a' ∷ [])) ≡ map upper (b'a' ∷ []))
    × (name_from_83 (name_to_83 ((b'a' ∷ []) ++ b'.' ∷ b'c' ∷ []))
        ≡ map upper (b'a' ∷ []) ++ b'.' ∷ map upper (b'c' ∷ []))
name_from_83-name_to_83_example =
    name_from_83-name_to_83 (b'a' ∷ []) [] b'c' (omega arith) (omega arith) (omega arith)
      (omega arith)

list_files_agrees_example :
    (get_file_count saved ≡ length (list_files saved))
    × (get_file_name 0 13 saved ≡ name_at (get_elem? (list_files saved) 0))
    × (get_file_size 0 saved ≡ size_at (get_elem? (list_files saved) 0))
list_files_agrees_example = list_files_agrees 0 saved

-- The disk with "A.C" of the byte 7 in cluster 2.
abbrev holder : Fat16
holder = record mounted {
  fat_table = store (λ i. 0) 2 0xffff;
  drive = record disk {
    sectors =
        store
          (store disk.sectors 2 (set_size 1 (set_first_cluster 2 (new_entry (name_to_83 name))))) 3
          (λ i. 7);
  };
}

sane_holder : (size : ℕ) → size ≤ 3 → IsMounted holder size
unfolding load_fat
sane_holder size small = record {
  ready = refl;
  good = λ l. refl;
  sane = record {
    in_bytes = refl;
    positive = omega arith;
    short = omega (arith, small);
    small = omega arith;
  };
  root_after_fats = refl;
  root_sectors = refl;
  files_after_root = refl;
}

abbrev found_holder : Holds (name_to_83 name) (λ i. 7) 1 holder
unfolding load_fat hits same_bytes
found_holder = record {
  index = 0;
  inside = omega arith;
  pass = λ k lo hi. absurd (omega (arith, hi));
  hit = (omega arith, refl);
  sized = refl;
  chain = λ pos.
      linked (omega arith) (omega arith) (omega arith)
        (λ j small. (let e : j ≡ 0 = omega (arith, small) in rw e refl)) (ended refl);
}

write_file-ReadsBack-other_example :
    ReadsBack name (λ i. 7) 1 (fs_of (write_file (b'b' ∷ []) three 3 true 5 holder))
unfolding load_fat hits same_bytes find_entry find_free write_clusters write_each flush_each
    find_from
write_file-ReadsBack-other_example =
    write_file-ReadsBack-other (b'b' ∷ []) name three (λ i. 7) 3 1 5 holder
      (fs_of (write_file (b'b' ∷ []) three 3 true 5 holder)) (sane_holder 3 (omega arith))
      (sane_holder 1 (omega arith)) (omega arith) (omega arith) refl refl found_holder
      (taken (omega arith) (over refl)) refl

mounted-IsBooted : IsBooted mounted
unfolding load_fat
mounted-IsBooted = record {
  parsed = λ b. refl;
  whole = refl;
  sized = omega arith;
  copies = omega arith;
  entries = refl;
  behind_boot = omega arith;
}

init-ReadsBack_example :
    let fs' = fs_of (write_file name three 3 true 65600 mounted) in
    (fs'' : Fat16) × (init true (record nothing { drive = fs'.drive }) ≡ (true, fs''))
    × ReadsBack name three 3 fs''
unfolding load_fat hits same_bytes find_entry find_free write_clusters write_each flush_each
    find_from
init-ReadsBack_example =
    init-ReadsBack name three 3 65600 mounted (fs_of (write_file name three 3 true 65600 mounted))
      nothing mounted-IsMounted mounted-IsBooted (omega arith) (omega arith) (omega arith)
      (omega arith) refl
