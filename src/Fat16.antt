-- ===== src/Fat16.antt =====
-- The FAT16 driver of src/fat16.rs: the drive by sectors, clusters, the table of the chains, and
-- the names of the directory. A buffer is a table of bytes. The fields of the boot sector are u8 and
-- u16, so that no sum of sector numbers reaches 2^32.
pub mod Chains
pub mod Clusters
pub mod Directory
pub mod Entries
pub mod Files
pub mod Found
pub mod Kept
pub mod Listing
pub mod Mount
pub mod Others
pub mod Names
pub mod Reading
pub mod Reloaded
pub mod Remount
pub mod Rounds
pub mod Saved
pub mod Settled
pub mod Target
pub mod Tests
pub mod Writing
use sysrust.Common.{
  ℕ, zero, suc, ◌+◌, ◌-◌, ◌*◌, ◌/◌, ◌%◌, ◌^◌, Bool, true, false, List, [], ◌∷◌, ◌++◌, Option, some,
  none, ◌==◌, ltb, leb, ◌&&◌, if◌then◌else◌, Table, store, find_from,
}

-- The sectors of the disk, and those at which the drive reports an error.
pub record Drive : Type 0 where
  pub sectors : Table (Table ℕ)
  pub bad : ℕ → Bool

pub record Bpb : Type 0 where
  pub bytes_per_sector : ℕ
  pub sectors_per_cluster : ℕ
  pub reserved_sectors : ℕ
  pub num_fats : ℕ
  pub root_entry_count : ℕ
  pub total_sectors_16 : ℕ
  pub total_sectors_32 : ℕ
  pub fat_size_16 : ℕ
  pub first_fat_sector : ℕ
  pub first_root_sector : ℕ
  pub root_dir_sectors : ℕ
  pub first_data_sector : ℕ
  pub cluster_size : ℕ

-- BPB, FAT_TABLE, FAT_ENTRIES and FAT16_READY, with the drive.
pub record Fat16 : Type 0 where
  pub bpb : Bpb
  pub fat_table : Table ℕ
  pub fat_entries : ℕ
  pub fat16_ready : Bool
  pub drive : Drive

abbrev pub read_sector : (lba : ℕ) → Drive → Option (Table ℕ)
read_sector lba d = if d.bad lba then none else some (d.sectors lba)

-- 512 bytes of `buf` from `at`; false is an error.
abbrev pub write_sector : (lba : ℕ) → Table ℕ → (at : ℕ) → Drive → Bool × Drive
write_sector lba buf at d =
    if d.bad lba
    then (false, d)
    else (true, record d { sectors = store d.sectors lba (λ i. buf (at + i)) })

-- memcpy of `n` bytes to `at`.
abbrev pub paste : Table ℕ → (at n : ℕ) → Table ℕ → Table ℕ
paste buf at n bytes j = if leb at j && ltb j (at + n) then bytes (j - at) else buf j

abbrev pub cluster_lba : Bpb → (cluster : ℕ) → ℕ
cluster_lba b cluster = b.first_data_sector + (cluster - 2) * b.sectors_per_cluster

-- `n` sectors are left, and the next is `i`.
unfoldable pub read_each : (n i lba : ℕ) → Table ℕ → Drive → Option (Table ℕ)
read_each zero i lba buf d = some buf
read_each (suc n) i lba buf d = elim (read_sector (lba + i) d) [
  | none ↦ none
  | some sector ↦ read_each n (i + 1) lba (paste buf (i * 512) 512 sector) d
]

abbrev pub read_cluster : Bpb → (cluster : ℕ) → Table ℕ → Drive → Option (Table ℕ)
read_cluster b cluster buf d =
    if ltb cluster 2 then none else read_each b.sectors_per_cluster 0 (cluster_lba b cluster) buf d

unfoldable pub write_each : (n i lba : ℕ) → Table ℕ → Drive → Bool × Drive
write_each zero i lba buf d = (true, d)
write_each (suc n) i lba buf d =
    let (ok, d') = write_sector (lba + i) buf (i * 512) d in
    elim ok [ true ↦ write_each n (i + 1) lba buf d' | false ↦ (false, d') ]

abbrev pub write_cluster : Bpb → (cluster : ℕ) → Table ℕ → Drive → Bool × Drive
write_cluster b cluster buf d =
    if ltb cluster 2
    then (false, d)
    else write_each b.sectors_per_cluster 0 (cluster_lba b cluster) buf d

abbrev pub fat_next : (fat_entries : ℕ) → Table ℕ → (cluster : ℕ) → ℕ
fat_next fat_entries fat cluster = if leb fat_entries cluster then 0xffff else fat cluster

-- The loop ends at FAT_ENTRIES as u16; 0 is a full disk.
abbrev pub fat_alloc : (fat_entries : ℕ) → Table ℕ → ℕ × Table ℕ
fat_alloc fat_entries fat = elim (find_from (λ i. fat i == 0) (fat_entries % 2 ^ 16 - 2) 2) [
  | none ↦ (0, fat)
  | some i ↦ (i, store fat i 0xffff)
]

-- The table as bytes.
abbrev pub fat_raw : Table ℕ → Table ℕ
fat_raw fat k = if k % 2 == 0 then fat (k / 2) % 2 ^ 8 else fat (k / 2) / 2 ^ 8 % 2 ^ 8

-- The copies of the table that are left are `n`, from the one at `base`.
unfoldable pub flush_each : (n base : ℕ) → (sectors : ℕ) → Table ℕ → Drive → Bool × Drive
flush_each zero base sectors raw d = (true, d)
flush_each (suc n) base sectors raw d =
    let (ok, d') = write_each sectors 0 base raw d in
    elim ok [ true ↦ flush_each n (base + sectors) sectors raw d' | false ↦ (false, d') ]

abbrev pub fat_flush : Bpb → Table ℕ → Drive → Bool × Drive
fat_flush b fat d = flush_each b.num_fats b.first_fat_sector b.fat_size_16 (fat_raw fat) d

abbrev pub upper : (c : ℕ) → ℕ
upper c = if leb b'a' c && leb c b'z' then c - b'a' + b'A' else c

-- The base name: room for `k` bytes is left, from `j`; with the name that is left.
abbrev pub base_loop : (k j : ℕ) → (name : List ℕ) → Table ℕ → List ℕ × Table ℕ
base_loop zero j name out = (name, out)
base_loop (suc k) j [] out = ([], out)
base_loop (suc k) j (c ∷ cs) out =
    if c == b'.' then (c ∷ cs, out) else base_loop k (j + 1) cs (store out j (upper c))

abbrev pub to_dot : List ℕ → List ℕ
to_dot [] = []
to_dot (c ∷ cs) = if c == b'.' then c ∷ cs else to_dot cs

abbrev pub extension_loop : (k j : ℕ) → (name : List ℕ) → Table ℕ → Table ℕ
extension_loop zero j name out = out
extension_loop (suc k) j [] out = out
extension_loop (suc k) j (c ∷ cs) out = extension_loop k (j + 1) cs (store out j (upper c))

abbrev pub extension : List ℕ → Table ℕ → Table ℕ
extension [] out = out
extension (dot ∷ cs) out = extension_loop 3 8 cs out

abbrev pub name_to_83 : (name : List ℕ) → Table ℕ
name_to_83 name = let (rest, out) = base_loop 8 0 name (λ i. b' ') in extension (to_dot rest) out

-- The bytes of `n` places from `i` that are not spaces.
unfoldable pub trimmed : (n i : ℕ) → Table ℕ → List ℕ
trimmed zero i t = []
trimmed (suc n) i t = let rest = trimmed n (i + 1) t in if t i == b' ' then rest else t i ∷ rest

abbrev pub name_from_83 : (fat_name : Table ℕ) → List ℕ
name_from_83 t = trimmed 8 0 t ++ (if t 8 == b' ' then [] else b'.' ∷ trimmed 3 8 t)
