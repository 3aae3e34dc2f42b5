-- ===== src/Fat16/Files.antt =====
-- read_file and write_file of src/fat16.rs. `room` says whether kmalloc gives a buffer for a
-- cluster; the loops run on fuel, and an outer `none` is out of fuel.
use sysrust.Common.{
  ℕ, zero, suc, ◌+◌, ◌-◌, ◌%◌, ◌^◌, Bool, true, false, List, Option, some, none, ◌==◌, ltb, leb,
  ◌&&◌, if◌then◌else◌, Table, store,
}
use sysrust.Fat16.{
  Drive, Bpb, Fat16, read_cluster, write_cluster, fat_next, fat_alloc, fat_flush, name_to_83, paste,
}
use sysrust.Fat16.Directory.{
  first_cluster, size_of, set_first_cluster, set_size, find_root_entry, find_free_root_entry,
  write_root_entry,
}

-- -1, or the bytes read with the buffer.
pub data Read : Type 0 where
  failed : Read
  got : (offset : ℕ) (buf : Table ℕ) → Read

unfoldable pub read_clusters :
    (fuel : ℕ) → Fat16 → (cluster remaining offset : ℕ) → (buf : Table ℕ) → Option Read
read_clusters zero fs cluster remaining offset buf = none
read_clusters (suc fuel) fs cluster remaining offset buf =
    if ltb 0 remaining && (leb 2 cluster && ltb cluster 0xfff8)
    then elim (read_cluster fs.bpb cluster (λ i. 0) fs.drive) [
      | none ↦ some failed
      | some cluster_buf ↦
          let copy_size =
            if ltb remaining fs.bpb.cluster_size then remaining else fs.bpb.cluster_size in
          read_clusters fuel fs (fat_next fs.fat_entries fs.fat_table cluster)
            (remaining - copy_size) (offset + copy_size) (paste buf offset copy_size cluster_buf)
    ]
    else some (got offset buf)

-- What follows find_root_entry in read_file.
abbrev pub read_entry :
    (buf : Table ℕ) (max_size : ℕ) (room : Bool) (fuel : ℕ)
    → Fat16
    → Option (ℕ × Table ℕ)
    → Option Read
read_entry buf max_size room fuel fs none = some failed
read_entry buf max_size room fuel fs (some (i, e)) =
    if size_of e == 0
    then some (got 0 buf)
    else if room
    then read_clusters fuel fs (first_cluster e)
        (if ltb max_size (size_of e) then max_size else size_of e) 0 buf
    else some failed

abbrev pub read_file :
    (name : List ℕ) (buf : Table ℕ) (max_size : ℕ) (room : Bool) (fuel : ℕ) → Fat16 → Option Read
read_file name buf max_size room fuel fs =
    if fs.fat16_ready
    then read_entry buf max_size room fuel fs (find_root_entry fs.bpb (name_to_83 name) fs.drive)
    else some failed

-- The loop over the chain of the old file.
unfoldable pub free_chain : (fuel fat_entries cluster : ℕ) → Table ℕ → Option (Table ℕ)
free_chain zero fat_entries cluster fat = none
free_chain (suc fuel) fat_entries cluster fat =
    let rest =
      free_chain fuel fat_entries (fat_next fat_entries fat cluster) (store fat cluster 0) in
    if leb 2 cluster && ltb cluster 0xfff8 then rest else some fat

-- The variables of the loop of write_file.
pub record Writer : Type 0 where
  pub first_cluster : ℕ
  pub prev_cluster : ℕ
  pub offset : ℕ
  pub fat : Table ℕ
  pub drive : Drive

-- min(cluster_size, size - offset), with the addition on u32.
abbrev pub write_size : Bpb → (size offset : ℕ) → ℕ
write_size b size offset =
    if ltb size ((offset + b.cluster_size) % 2 ^ 32) then size - offset else b.cluster_size

abbrev pub cluster_data : (buf : Table ℕ) (offset n : ℕ) → Table ℕ
cluster_data buf offset n i = if ltb i n then buf (offset + i) else 0

-- The state after one round that got `cluster`; `fat` has it marked.
abbrev pub advance :
    Bpb → (buf : Table ℕ) (size cluster : ℕ) → (fat : Table ℕ) → Drive → Writer → Writer
advance b buf size cluster fat d w = record {
  first_cluster = if w.first_cluster == 0 then cluster else w.first_cluster;
  prev_cluster = cluster;
  offset = w.offset + write_size b size w.offset;
  fat = if w.prev_cluster == 0 then fat else store fat w.prev_cluster cluster;
  drive = d;
}

-- The round behind the write of the cluster; `rest` is the rounds that are left.
abbrev pub after_write :
    Bpb
    → (buf : Table ℕ) (size cluster : ℕ) → (fat : Table ℕ) → Writer
    → (rest : Writer → Option (Bool × Writer)) → Bool × Drive
    → Option (Bool × Writer)
after_write b buf size cluster fat w rest (ok, d) =
    let w' = advance b buf size cluster fat d w in
    elim ok [ true ↦ rest w' | false ↦ some (false, w') ]

-- The round behind fat_alloc.
abbrev pub after_alloc :
    Bpb
    → (buf : Table ℕ) (size : ℕ) → Writer
    → (rest : Writer → Option (Bool × Writer)) → ℕ × Table ℕ
    → Option (Bool × Writer)
after_alloc b buf size w rest (cluster, fat) =
    if cluster == 0
    then some (false, w)
    else after_write b buf size cluster fat w rest
        (write_cluster b cluster (cluster_data buf w.offset (write_size b size w.offset)) w.drive)

unfoldable pub write_clusters :
    (fuel : ℕ)
    → Bpb
    → (fat_entries : ℕ) → (buf : Table ℕ) (size : ℕ) → Writer
    → Option (Bool × Writer)
write_clusters zero b fat_entries buf size w = none
write_clusters (suc fuel) b fat_entries buf size w =
    if ltb w.offset size
    then after_alloc b buf size w (λ w'. write_clusters fuel b fat_entries buf size w')
        (fat_alloc fat_entries w.fat)
    else some (true, w)

-- The new entry, its write, and fat_flush.
abbrev pub finish : (index : ℕ) (entry : Table ℕ) (size : ℕ) → Writer → Fat16 → Bool × Fat16
finish index entry size w fs =
    let (ok, d) =
      write_root_entry fs.bpb index (set_size size (set_first_cluster w.first_cluster entry))
        w.drive in
    let fs' = record fs { fat_table = w.fat; drive = d } in
    if ok
    then (let (ok', d') = fat_flush fs.bpb w.fat d in (ok', record fs' { drive = d' }))
    else (false, fs')

-- What follows the loop.
abbrev pub after_loop :
    (index : ℕ) (entry : Table ℕ) (size : ℕ)
    → Fat16
    → Option (Bool × Writer)
    → Option (Bool × Fat16)
after_loop index entry size fs none = none
after_loop index entry size fs (some (ok, w)) = some (
    if ok
    then finish index entry size w fs
    else (false, record fs { fat_table = w.fat; drive = w.drive }))

abbrev pub first_round : (fat : Table ℕ) → Fat16 → Writer
first_round fat fs = record {
  first_cluster = 0;
  prev_cluster = 0;
  offset = 0;
  fat = fat;
  drive = fs.drive;
}

-- A zeroed entry with the name and the archive bit.
abbrev pub new_entry : (fat_name : Table ℕ) → Table ℕ
new_entry fat_name k = if ltb k 11 then fat_name k else if k == 11 then 0x20 else 0

-- The entry to write at, and the table without the old chain; an inner `none` is a full directory.
abbrev pub target :
    (fuel : ℕ) (fat_name : Table ℕ) → Fat16 → Option (Option (ℕ × Table ℕ × Table ℕ))
target fuel fat_name fs = elim (find_root_entry fs.bpb fat_name fs.drive) [
  | some (i, e) ↦ elim (free_chain fuel fs.fat_entries (first_cluster e) fs.fat_table) [
    | none ↦ none
    | some fat ↦ some (some (i, e, fat))
  ]
  | none ↦ elim (find_free_root_entry fs.bpb fs.drive) [
    | none ↦ some none
    | some i ↦ some (some (i, new_entry fat_name, fs.fat_table))
  ]
]

-- What follows the choice of the entry.
abbrev pub write_target :
    (buf : Table ℕ) (size : ℕ) (room : Bool) (fuel : ℕ)
    → Fat16
    → Option (Option (ℕ × Table ℕ × Table ℕ))
    → Option (Bool × Fat16)
write_target buf size room fuel fs none = none
write_target buf size room fuel fs (some none) = some (false, fs)
write_target buf size room fuel fs (some (some (i, e, fat))) =
    if room
    then after_loop i e size fs
        (write_clusters fuel fs.bpb fs.fat_entries buf size (first_round fat fs))
    else some (false, record fs { fat_table = fat })

abbrev pub write_file :
    (name : List ℕ) (buf : Table ℕ) (size : ℕ) (room : Bool) (fuel : ℕ)
    → Fat16
    → Option (Bool × Fat16)
write_file name buf size room fuel fs =
    if fs.fat16_ready
    then write_target buf size room fuel fs (target fuel (name_to_83 name) fs)
    else some (false, fs)
