-- ===== src/Fat16/Directory.antt =====
-- The root directory of src/fat16.rs. An entry is its 32 bytes.
use Prim.Native.Nat.{bit_and}
use sysrust.Common.{
  ℕ, zero, suc, ◌+◌, ◌*◌, ◌/◌, ◌%◌, ◌^◌, Bool, true, false, not, List, [], ◌∷◌, Option, some, none,
  ◌==◌, ltb, ◌&&◌, ◌||◌, if◌then◌else◌, Table, store,
}
use sysrust.Fat16.{Drive, Bpb, Fat16, read_sector, write_sector, paste, name_from_83}

abbrev pub attr : Table ℕ → ℕ
attr e = e 11

abbrev pub first_cluster : Table ℕ → ℕ
first_cluster e = e 26 + e 27 * 2 ^ 8

abbrev pub size_of : Table ℕ → ℕ
size_of e = e 28 + e 29 * 2 ^ 8 + e 30 * 2 ^ 16 + e 31 * 2 ^ 24

abbrev pub set_first_cluster : (cluster : ℕ) → Table ℕ → Table ℕ
set_first_cluster c e = store (store e 26 (c % 2 ^ 8)) 27 (c / 2 ^ 8 % 2 ^ 8)

abbrev pub set_size : (size : ℕ) → Table ℕ → Table ℕ
set_size n e =
    store (store (store (store e 28 (n % 2 ^ 8)) 29 (n / 2 ^ 8 % 2 ^ 8)) 30 (n / 2 ^ 16 % 2 ^ 8)) 31
      (n / 2 ^ 24 % 2 ^ 8)

-- The bytes of the entry in its sector.
abbrev pub entry_at : (index : ℕ) → (sector : Table ℕ) → Table ℕ
entry_at index sector k = if ltb k 32 then sector (index % 16 * 32 + k) else 0

abbrev pub read_root_entry : Bpb → (index : ℕ) → Drive → Option (Table ℕ)
read_root_entry b index d = elim (read_sector (b.first_root_sector + index / 16) d) [
  | none ↦ none
  | some sector ↦ some (entry_at index sector)
]

abbrev pub write_root_entry : Bpb → (index : ℕ) → (entry : Table ℕ) → Drive → Bool × Drive
write_root_entry b index entry d = elim (read_sector (b.first_root_sector + index / 16) d) [
  | none ↦ (false, d)
  | some sector ↦
      write_sector (b.first_root_sector + index / 16) (paste sector (index % 16 * 32) 32 entry) 0 d
]

-- memcmp of `n` bytes from `i`.
unfoldable pub same_bytes : (n i : ℕ) → (a b : Table ℕ) → Bool
same_bytes zero i a b = true
same_bytes (suc n) i a b = (a i == b i) && same_bytes n (i + 1) a b

-- Neither deleted, nor a long name, nor a volume label.
abbrev pub visible : Table ℕ → Bool
visible e = not (e 0 == 0xe5) && not ((attr e == 0x0f) || not (bit_and (attr e) 0x08 == 0))

unfoldable pub hits : (fat_name e : Table ℕ) → Bool
hits fat_name e = visible e && same_bytes 11 0 e fat_name

-- The loop of find_root_entry, `n` entries from `i`.
unfoldable pub find_entry : (n i : ℕ) → Bpb → (fat_name : Table ℕ) → Drive → Option (ℕ × Table ℕ)
find_entry zero i b fat_name d = none
find_entry (suc n) i b fat_name d =
    let rest = find_entry n (i + 1) b fat_name d in
    elim (read_root_entry b i d) [
      | none ↦ none
      | some e ↦ if e 0 == 0 then none else if hits fat_name e then some (i, e) else rest
    ]

abbrev pub find_root_entry : Bpb → (fat_name : Table ℕ) → Drive → Option (ℕ × Table ℕ)
find_root_entry b fat_name d = find_entry b.root_entry_count 0 b fat_name d

unfoldable pub find_free : (n i : ℕ) → Bpb → Drive → Option ℕ
find_free zero i b d = none
find_free (suc n) i b d =
    let rest = find_free n (i + 1) b d in
    elim (read_root_entry b i d) [
      | none ↦ none
      | some e ↦ if (e 0 == 0) || (e 0 == 0xe5) then some i else rest
    ]

abbrev pub find_free_root_entry : Bpb → Drive → Option ℕ
find_free_root_entry b d = find_free b.root_entry_count 0 b d

-- A file that is listed, and no directory.
abbrev pub listed : Table ℕ → Bool
listed e = visible e && (bit_and (attr e) 0x10 == 0)

-- The calls of the callback, in order.
unfoldable pub list_each : (n i : ℕ) → Bpb → Drive → List (List ℕ × ℕ)
list_each zero i b d = []
list_each (suc n) i b d =
    let rest = list_each n (i + 1) b d in
    elim (read_root_entry b i d) [
      | none ↦ []
      | some e ↦
          if e 0 == 0 then [] else if listed e then (name_from_83 e, size_of e) ∷ rest else rest
    ]

abbrev pub list_files : Fat16 → List (List ℕ × ℕ)
list_files fs = if fs.fat16_ready then list_each fs.bpb.root_entry_count 0 fs.bpb fs.drive else []

unfoldable pub count_each : (n i : ℕ) → Bpb → Drive → (count : ℕ) → ℕ
count_each zero i b d count = count
count_each (suc n) i b d count =
    let rest = λ (c : ℕ). count_each n (i + 1) b d c in
    elim (read_root_entry b i d) [
      | none ↦ count
      | some e ↦ if e 0 == 0 then count else if listed e then rest (count + 1) else rest count
    ]

abbrev pub get_file_count : Fat16 → ℕ
get_file_count fs =
    if fs.fat16_ready then count_each fs.bpb.root_entry_count 0 fs.bpb fs.drive 0 else 0

-- The listed entry that `index` counts to.
unfoldable pub nth_each : (n i : ℕ) → Bpb → Drive → (count index : ℕ) → Option (Table ℕ)
nth_each zero i b d count index = none
nth_each (suc n) i b d count index =
    let rest = λ (c : ℕ). nth_each n (i + 1) b d c index in
    elim (read_root_entry b i d) [
      | none ↦ none
      | some e ↦
          if e 0 == 0
          then none
          else if listed e
          then (if count == index then some e else rest (count + 1))
          else rest count
    ]

-- `none` is -1.
abbrev pub get_file_name : (index buf_size : ℕ) → Fat16 → Option (List ℕ)
get_file_name index buf_size fs =
    if not fs.fat16_ready || ltb buf_size 13
    then none
    else elim (nth_each fs.bpb.root_entry_count 0 fs.bpb fs.drive 0 index) [
      | none ↦ none
      | some e ↦ some (name_from_83 e)
    ]

abbrev pub get_file_size : (index : ℕ) → Fat16 → ℕ
get_file_size index fs =
    if fs.fat16_ready
    then elim (nth_each fs.bpb.root_entry_count 0 fs.bpb fs.drive 0 index) [
      | none ↦ 0
      | some e ↦ size_of e
    ]
    else 0
