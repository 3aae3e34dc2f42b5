-- ===== src/Fat16/Mount.antt =====
-- init of src/fat16.rs: the boot sector, and the cache of the table.
use sysrust.Common.{
  ℕ, zero, suc, ◌+◌, ◌*◌, ◌/◌, ◌^◌, Bool, true, false, not, Option, some, none, ◌==◌, ◌||◌,
  if◌then◌else◌, Table,
}
use sysrust.Fat16.{Drive, Bpb, Fat16, read_sector, paste}

abbrev pub word16 : Table ℕ → (at : ℕ) → ℕ
word16 t at = t at + t (at + 1) * 2 ^ 8

-- The fields of the boot sector; the derived values stay.
abbrev pub parse_bpb : (sector : Table ℕ) → Bpb → Bpb
parse_bpb t b = record b {
  bytes_per_sector = word16 t 11;
  sectors_per_cluster = t 13;
  reserved_sectors = word16 t 14;
  num_fats = t 16;
  root_entry_count = word16 t 17;
  total_sectors_16 = word16 t 19;
  fat_size_16 = word16 t 22;
  total_sectors_32 = word16 t 32 + word16 t 34 * 2 ^ 16;
}

abbrev pub derive : Bpb → Bpb
derive b =
    let root_dir_sectors = (b.root_entry_count * 32 + 511) / 512 in
    let first_root_sector = b.reserved_sectors + b.num_fats * b.fat_size_16 in
    record b {
      first_fat_sector = b.reserved_sectors;
      root_dir_sectors = root_dir_sectors;
      first_root_sector = first_root_sector;
      first_data_sector = first_root_sector + root_dir_sectors;
      cluster_size = b.sectors_per_cluster * 512;
    }

-- The sectors of the table that are left, and the bytes so far.
unfoldable pub load_fat : (n s base : ℕ) → (raw : Table ℕ) → Drive → Option (Table ℕ)
load_fat zero s base raw d = some raw
load_fat (suc n) s base raw d = elim (read_sector (base + s) d) [
  | none ↦ none
  | some sector ↦ load_fat n (s + 1) base (paste raw (s * 512) 512 sector) d
]

-- `room` is about the cache of the table.
abbrev pub init : (room : Bool) → Fat16 → Bool × Fat16
init room fs0 =
    let fs = record fs0 { fat16_ready = false } in
    elim (read_sector 0 fs.drive) [
      | none ↦ (false, fs)
      | some sector ↦
          let b = parse_bpb sector fs.bpb in
          if not (b.bytes_per_sector == 512) || ((b.fat_size_16 == 0) || (b.num_fats == 0))
          then (false, record fs { bpb = b })
          else (let fs' = record fs { bpb = derive b; fat_entries = b.fat_size_16 * 512 / 2 } in
              if room
              then elim (load_fat b.fat_size_16 0 b.reserved_sectors (λ i. 0) fs.drive) [
                | none ↦ (false, fs')
                | some raw ↦
                    (true, record fs' { fat_table = λ i. word16 raw (i * 2); fat16_ready = true })
              ]
              else (false, fs'))
    ]
