-- ===== src/Fat16/Found.antt =====
-- A file that the root directory of src/fat16.rs leads to, and read_file on it.
use sysrust.Common.{
  ℕ, ◌+◌, ◌-◌, ◌/◌, ◌%◌, ◌≡◌, ◌≤◌, ◌<◌, inl, inr, true, false, List, some, ◌==◌, ltb, if◌then◌else◌,
  Table, arith, refl, ap, ◌∙◌, sym, Bool-cases,
}
use sysrust.Fat16.{Drive, Bpb, Fat16, cluster_lba, name_to_83}
use sysrust.Fat16.Directory.{first_cluster, size_of, find_root_entry}
use sysrust.Fat16.Files.{got, failed, read_entry, read_file, read_clusters}
use sysrust.Fat16.Reading.{Stored, ended, linked, read_clusters-Filled}
use sysrust.Fat16.Entries.{root_entry, AllPass, Hit, find_entry-first}
use sysrust.Fat16.Target.{IsMounted}

-- A chain is about the sectors of the data alone.
pub Stored_ext :
    (b : Bpb) (fe size : ℕ) (src fat : Table ℕ) (d d' : Drive) (c off : ℕ)
    → ((l : ℕ) → b.first_data_sector ≤ l → d'.sectors l ≡ d.sectors l)
    → Stored b fe size src fat d c off
    → Stored b fe size src fat d' c off
Stored_ext b fe size src fat d d' c off same (ended e) = ended e
Stored_ext b fe size src fat d d' c off same (linked lt two last here rest) =
    linked lt two last
      (λ j small.
        ap (λ (t : Table ℕ). t (j % 512)) (same (cluster_lba b c + j / 512) (omega arith))
        ∙ here j small)
      (Stored_ext b fe size src fat d d' (fat c) _ same rest)

-- read_file with room in the buffer gives the bytes of `src`.
abbrev pub ReadsBack : (name : List ℕ) (src : Table ℕ) (size : ℕ) → Fat16 → Type 0
ReadsBack name src size fs =
    (buf : Table ℕ) (max_size fuel : ℕ)
    → size ≤ max_size
    → size < fuel
    → (buf' : Table ℕ) × (read_file name buf max_size true fuel fs ≡ some (got size buf'))
      × ((i : ℕ) → i < size → buf' i ≡ src i)

-- The file is there: the first hit leads to a chain with its bytes.
pub record Holds (fat_name src : Table ℕ) (size : ℕ) (fs : Fat16) : Type 0 where
  pub index : ℕ
  pub inside : index < fs.bpb.root_entry_count
  pub pass : AllPass fs.bpb fs.drive fat_name 0 index
  pub hit : Hit fat_name (root_entry fs.bpb fs.drive index)
  pub sized : size_of (root_entry fs.bpb fs.drive index) ≡ size
  pub chain :
      0 < size
      → Stored fs.bpb fs.fat_entries size src fs.fat_table fs.drive
          (first_cluster (root_entry fs.bpb fs.drive index))
          0

module _ (name : List ℕ) (buf : Table ℕ) (max_size fuel : ℕ) where
  read_file_on :
      (fs : Fat16) (i : ℕ) (e : Table ℕ)
      → fs.fat16_ready ≡ true
      → find_root_entry fs.bpb (name_to_83 name) fs.drive ≡ some (i, e)
      → read_file name buf max_size true fuel fs
        ≡ read_entry buf max_size true fuel fs (some (i, e))
  read_file_on fs i e ready found =
      let entry = read_entry buf max_size true fuel fs in
      ap (λ r. if r then entry (find_root_entry fs.bpb (name_to_83 name) fs.drive) else some failed)
        ready
      ∙ ap entry found

  read_file_empty :
      (fs : Fat16) (i : ℕ) (e : Table ℕ)
      → fs.fat16_ready ≡ true
      → find_root_entry fs.bpb (name_to_83 name) fs.drive ≡ some (i, e)
      → size_of e ≡ 0
      → read_file name buf max_size true fuel fs ≡ some (got 0 buf)
  read_file_empty fs i e ready found empty =
      let z : (size_of e == 0) ≡ true = ground (arith, empty) in
      read_file_on fs i e ready found ∙ rw z refl

  read_file-some :
      (size : ℕ) (fs : Fat16) (i : ℕ) (e : Table ℕ)
      → fs.fat16_ready ≡ true
      → find_root_entry fs.bpb (name_to_83 name) fs.drive ≡ some (i, e)
      → size_of e ≡ size
      → 0 < size
      → size ≤ max_size
      → read_file name buf max_size true fuel fs
        ≡ read_clusters fuel fs (first_cluster e) (size - 0) 0 buf
  read_file-some size fs i e ready found sized pos fits =
      let nz : (size_of e == 0) ≡ false = ground (arith, sized, pos) in
      let clip : (if ltb max_size (size_of e) then max_size else size_of e) ≡ size - 0 =
        ground (arith, sized, fits) in
      read_file_on fs i e ready found ∙ (rw nz (rw clip refl))

pub Stored_at :
    (b : Bpb) (fe size : ℕ) (src fat : Table ℕ) (d : Drive) (c off c' off' : ℕ)
    → c ≡ c'
    → off ≡ off'
    → Stored b fe size src fat d c off
    → Stored b fe size src fat d c' off'
Stored_at b fe size src fat d c off c' off' same at stored = rw (sym same, sym at) stored

pub Stored-lt :
    (b : Bpb) (fe size : ℕ) (src fat : Table ℕ) (d : Drive) (c off : ℕ)
    → off < size
    → Stored b fe size src fat d c off
    → c < fe
Stored-lt b fe size src fat d c off more (ended e) = absurd (omega (arith, more, e))
Stored-lt b fe size src fat d c off more (linked lt two last here rest) = last

pub Holds-ReadsBack :
    (name : List ℕ) (src : Table ℕ) (size : ℕ) (fs : Fat16)
    → IsMounted fs size
    → Holds (name_to_83 name) src size fs
    → ReadsBack name src size fs
Holds-ReadsBack name src size fs m h buf max_size fuel fits enough =
    let e = root_entry fs.bpb fs.drive h.index in
    let found =
      find_entry-first fs.bpb fs.drive m.good (name_to_83 name) fs.bpb.root_entry_count 0 h.index
        (omega arith) (omega (arith, h.inside)) h.pass h.hit in
    elim (Bool-cases (size == 0)) [
      | inl z ↦
          let e0 : size ≡ 0 = ground arith in
          (
            buf,
            read_file_empty name buf max_size fuel fs h.index e m.ready found (h.sized ∙ e0)
                ∙ ap (λ n. some (got n buf)) (sym e0),
            λ i lt. absurd (omega (arith, lt, e0)),
          )
      | inr nz ↦
          let pos : 0 < size = ground arith in
          let (buf', runs, (filled, kept)) =
            read_clusters-Filled size src fs fuel 0 (first_cluster e) buf m.good m.sane.in_bytes
              m.sane.positive m.sane.small (omega arith) (omega (arith, enough)) (h.chain pos) in
          (
            buf',
            read_file-some name buf max_size fuel size fs h.index e m.ready found h.sized pos fits
                ∙ runs,
            λ i lt. filled i (omega arith) lt,
          )
    ]
