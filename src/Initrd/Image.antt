-- ===== src/Initrd/Image.antt =====
-- Reading the image of src/initrd.rs, as its format is described there.
use sysrust.Common.{
  ℕ, zero, suc, ◌+◌, ◌/◌, ◌%◌, ◌^◌, ◌≡◌, ◌≤◌, ◌<◌, false, List, [], ◌∷◌, ◌++◌, map, ◌==◌, ltb,
  Table, length, arith, refl, ap, ◌∙◌, Bool-cases, inl, inr,
}
use sysrust.Strings.Terminated.{IsString}
use sysrust.Ramfs.{bytes_from}
use sysrust.Initrd.{InitrdFile, word_at, name_of, read_files, init}

-- For each file: the name in 64 bytes, the size, and the data.
abbrev pub IsImage : Table ℕ → (p : ℕ) → List (List ℕ × List ℕ) → Type 0
IsImage mem p [] = Unit {0}
IsImage mem p ((name, bytes) ∷ rest) =
    IsString mem p name
    × ((length name ≤ 63)
        × ((word_at mem (p + 64) ≡ length bytes)
            × ((bytes_from mem (length bytes) (p + 68) ≡ bytes)
                × IsImage mem (p + 68 + length bytes) rest)))

-- The first files of a list.
abbrev pub first {ℓ} : {A : Type ℓ} → ℕ → List A → List A
first zero xs = []
first (suc n) [] = []
first (suc n) (x ∷ xs) = x ∷ first n xs

-- What a file of the table says.
abbrev pub contents : Table ℕ → InitrdFile → List ℕ × List ℕ
contents mem f = (name_of f.name, bytes_from mem f.size f.data_ptr)

name_of-bytes_from :
    (name : List ℕ) (n p : ℕ) (mem : Table ℕ)
    → IsString mem p name
    → length name ≤ n
    → name_of (bytes_from mem n p ++ (0 ∷ [])) ≡ name
unfolding bytes_from
name_of-bytes_from [] zero p mem h fits = refl
name_of-bytes_from (x ∷ xs) zero p mem h fits = absurd (omega (arith, fits))
name_of-bytes_from [] (suc n) p mem h fits = rw h refl
name_of-bytes_from (x ∷ xs) (suc n) p mem (at, (nz, h)) fits =
    let go : (x == 0) ≡ false = ground arith in
    rw (at, go) (ap (λ l. x ∷ l) (name_of-bytes_from xs n (p + 1) mem h (omega (arith, fits))))

read_files-contents :
    (files : List (List ℕ × List ℕ)) (n p : ℕ) (mem : Table ℕ)
    → IsImage mem p files
    → n ≤ length files
    → map (contents mem) (read_files n p mem) ≡ first n files
unfolding read_files
read_files-contents files zero p mem image fits = refl
read_files-contents [] (suc n) p mem image fits = absurd (omega (arith, fits))
read_files-contents ((name, bytes) ∷ rest) (suc n) p mem (named, (short, (size, (data_at, image))))
      fits =
    let here = name_of-bytes_from name 63 p mem named short in
    let further =
      read_files-contents rest n (p + 68 + length bytes) mem image (omega (arith, fits)) in
    rw (size, here, data_at) (ap (λ l. (name, bytes) ∷ l) further)

first_all :
    (files : List (List ℕ × List ℕ)) (n : ℕ)
    → length files ≤ n
    → first (length files) files ≡ first n files
first_all [] zero fits = refl
first_all [] (suc n) fits = refl
first_all (f ∷ fs) zero fits = absurd (omega (arith, fits))
first_all (f ∷ fs) (suc n) fits = ap (λ l. f ∷ l) (first_all fs n (omega (arith, fits)))

-- For an archive in memory in the format that the file describes, with names of at most 63 bytes
-- and a count equal to the number of its files, and boot information with a module, init makes a
-- table whose entries have the names and the contents of the first 64 files of the archive, in its
-- order.
pub init-contents :
    (files : List (List ℕ × List ℕ)) (flags mods_count mod_start : ℕ) (mem : Table ℕ)
    → flags / 2 ^ 3 % 2 ≡ 1
    → 0 < mods_count
    → word_at mem mod_start ≡ length files
    → IsImage mem (mod_start + 4) files
    → map (contents mem) (init flags mods_count mod_start mem) ≡ first 64 files
unfolding init
init-contents files flags mods_count mod_start mem modules some_module count image =
    let some_mods : (mods_count == 0) ≡ false = ground arith in
    elim (Bool-cases (ltb 64 (length files))) [
      | inl many ↦
          rw (init, modules, some_mods, count, many)
            (read_files-contents files 64 (mod_start + 4) mem image (ground arith))
      | inr few ↦
          rw (init, modules, some_mods, count, few)
            (read_files-contents files (length files) (mod_start + 4) mem image (omega arith)
              ∙ first_all files 64 (ground arith))
    ]
