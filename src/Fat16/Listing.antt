-- ===== src/Fat16/Listing.antt =====
-- The calls of src/fat16.rs that the /disk directory is made with, against list_files.
use sysrust.Common.{
  ℕ, zero, suc, ◌+◌, ◌≡◌, true, false, List, [], ◌∷◌, Option, some, none, ◌==◌, Table, length,
  arith, refl, ap, ◌∙◌, Bool-cases, Option-cases, inl, inr, ◌⊎◌,
}
use sysrust.Fat16.{Drive, Bpb, Fat16, name_from_83}
use sysrust.Fat16.Directory.{
  size_of, read_root_entry, listed, list_each, list_files, count_each, get_file_count, nth_each,
  get_file_name, get_file_size,
}

abbrev pub get_elem? : List (List ℕ × ℕ) → ℕ → Option (List ℕ × ℕ)
get_elem? [] i = none
get_elem? (x ∷ xs) zero = some x
get_elem? (x ∷ xs) (suc i) = get_elem? xs i

abbrev pub name_at : Option (List ℕ × ℕ) → Option (List ℕ)
name_at none = none
name_at (some (name, size)) = some name

abbrev pub size_at : Option (List ℕ × ℕ) → ℕ
size_at none = 0
size_at (some (name, size)) = size

abbrev described : Option (Table ℕ) → Option (List ℕ × ℕ)
described none = none
described (some e) = some (name_from_83 e, size_of e)

left_cases : (n : ℕ) → (n ≡ 0) ⊎ ((m : ℕ) × (n ≡ suc m))
left_cases zero = inl refl
left_cases (suc m) = inr (m, refl)

module _ (b : Bpb) (d : Drive) where
  count_each-list_each :
      (n i count : ℕ) → count_each n i b d count ≡ count + length (list_each n i b d)
  unfolding count_each list_each
  count_each-list_each zero i count = omega arith
  count_each-list_each (suc n) i count = elim (Option-cases (read_root_entry b i d)) [
    | inl bad ↦ rw (count_each, list_each, bad) (omega arith)
    | inr (e, ok) ↦ elim (Bool-cases (e 0 == 0)) [
      | inl end ↦ rw (count_each, list_each, ok) (rw end (omega arith))
      | inr more ↦ elim (Bool-cases (listed e)) [
        | inl yes_listed ↦
            rw (count_each, list_each, ok)
              (rw (more, yes_listed) (omega (arith, count_each-list_each n (i + 1) (count + 1))))
        | inr hidden ↦
            rw (count_each, list_each, ok)
              (rw (more, hidden) (count_each-list_each n (i + 1) count))
      ]
    ]
  ]

  nth_each-list_each :
      (n i count left index : ℕ)
      → count + left ≡ index
      → described (nth_each n i b d count index) ≡ get_elem? (list_each n i b d) left
  unfolding nth_each list_each
  nth_each-list_each zero i count left index at = refl
  nth_each-list_each (suc n) i count left index at = elim (Option-cases (read_root_entry b i d)) [
    | inl bad ↦ rw (nth_each, list_each, bad) refl
    | inr (e, ok) ↦ elim (Bool-cases (e 0 == 0)) [
      | inl end ↦ rw (nth_each, list_each, ok) (rw end refl)
      | inr more ↦ elim (Bool-cases (listed e)) [
        | inr hidden ↦
            rw (nth_each, list_each, ok)
              (rw (more, hidden) (nth_each-list_each n (i + 1) count left index at))
        | inl seen ↦
            rw (nth_each, list_each, ok)
              (rw (more, seen)
                (elim (left_cases left) [
                  | inl z ↦
                      let here : (count == index) ≡ true = ground (arith, z, at) in
                      rw (here, z) refl
                  | inr (left', next) ↦
                      let later : (count == index) ≡ false = ground (arith, next, at) in
                      rw (later, next)
                        (nth_each-list_each n (i + 1) (count + 1) left' index
                          (omega (arith, next, at)))
                ]))
      ]
    ]
  ]

name_of-described :
    (o : Option (Table ℕ))
    → (elim o [ none ↦ none | some e ↦ some (name_from_83 e) ]) ≡ name_at (described o)
name_of-described none = refl
name_of-described (some e) = refl

size_of-described :
    (o : Option (Table ℕ)) → (elim o [ none ↦ 0 | some e ↦ size_of e ]) ≡ size_at (described o)
size_of-described none = refl
size_of-described (some e) = refl

-- get_file_count is the length of what list_files reports, and get_file_name (with room for 13
-- bytes) and get_file_size at an index give the name and the size that list_files reports there,
-- -1 and 0 behind the end.
pub list_files_agrees :
    (index : ℕ) (fs : Fat16)
    → (get_file_count fs ≡ length (list_files fs))
      × (get_file_name index 13 fs ≡ name_at (get_elem? (list_files fs) index))
      × (get_file_size index fs ≡ size_at (get_elem? (list_files fs) index))
list_files_agrees index fs =
    let n = fs.bpb.root_entry_count in
    let b = fs.bpb in
    let d = fs.drive in
    let o = nth_each n 0 b d 0 index in
    let nth = nth_each-list_each b d n 0 0 index index (omega arith) in
    let count = count_each-list_each b d n 0 0 in
    let listing = list_each n 0 b d in
    elim (Bool-cases fs.fat16_ready) [
      | inr off ↦ rw off (refl, refl, refl)
      | inl on ↦ rw on (
        count ∙ omega arith,
        name_of-described o ∙ ap name_at nth,
        size_of-described o ∙ ap size_at nth,
      )
    ]
