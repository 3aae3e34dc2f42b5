-- ===== src/Fat16/Target.antt =====
-- The entry that write_file of src/fat16.rs writes to.
use sysrust.Common.{
  ℕ, zero, suc, ◌+◌, ◌*◌, ◌/◌, ◌≡◌, ◌≢◌, ◌<◌, ◌⊎◌, inl, inr, true, false, not, some, none, ◌==◌,
  Table, arith, refl, ◌∙◌, sym, Option-cases, count_from-le,
}
use sysrust.Fat16.{Fat16}
use sysrust.Fat16.Directory.{first_cluster, same_bytes, hits, find_root_entry, find_free_root_entry}
use sysrust.Fat16.Files.{target, new_entry}
use sysrust.Fat16.Clusters.{IsGood}
use sysrust.Fat16.Writing.{IsSane}
use sysrust.Fat16.Chains.{free_chain_ends}
use sysrust.Fat16.Entries.{AllPass, Hit, find_entry-some, find_free-some}

pub same_bytes_ext :
    (n i : ℕ) (a a' b : Table ℕ)
    → ((k : ℕ) → k < i + n → a k ≡ a' k)
    → same_bytes n i a b ≡ same_bytes n i a' b
unfolding same_bytes
same_bytes_ext zero i a a' b same = refl
same_bytes_ext (suc n) i a a' b same =
    rw (same i (omega arith), same_bytes_ext n (i + 1) a a' b (λ k lt. same k (omega (arith, lt))))
      refl

same_bytes_refl :
    (n i : ℕ) (a b : Table ℕ) → ((k : ℕ) → k < i + n → a k ≡ b k) → same_bytes n i a b ≡ true
unfolding same_bytes
same_bytes_refl zero i a b same = refl
same_bytes_refl (suc n) i a b same =
    let e : (a i == b i) ≡ true = ground (arith, same i) in
    rw (same_bytes, e) (same_bytes_refl n (i + 1) a b (λ k lt. same k (omega (arith, lt))))

-- A hit is about the name and the attributes.
pub hits_ext :
    (fat_name e e' : Table ℕ) → ((k : ℕ) → k < 12 → e k ≡ e' k) → Hit fat_name e → Hit fat_name e'
unfolding hits
hits_ext fat_name e e' same (nz, h) =
    let first = same 0 (omega arith) in
    let attributes = same 11 (omega arith) in
    let bytes = same_bytes_ext 11 0 e e' fat_name (λ k lt. same k (omega (arith, lt))) in
    let eq : hits fat_name e ≡ hits fat_name e' = rw (first, attributes, bytes) refl in
    (rw first at nz, sym eq ∙ h)

new_entry-Hit :
    (fat_name : Table ℕ) → fat_name 0 ≢ 0 → fat_name 0 ≢ 0xe5 → Hit fat_name (new_entry fat_name)
unfolding hits
new_entry-Hit fat_name nz live =
    let bytes = same_bytes_refl 11 0 (new_entry fat_name) fat_name (λ k lt. ground (arith, lt)) in
    let e : (fat_name 0 == 0xe5) ≡ false = ground (arith, live) in (nz, rw (bytes, e) refl)

-- A mounted disk: its regions follow each other, and its drive reports no error.
pub record IsMounted (fs : Fat16) (size : ℕ) : Type 0 where
  pub ready : fs.fat16_ready ≡ true
  pub good : IsGood fs.drive
  pub sane : IsSane fs.bpb fs.fat_entries size
  pub root_after_fats :
      fs.bpb.first_root_sector ≡ fs.bpb.first_fat_sector + fs.bpb.num_fats * fs.bpb.fat_size_16
  pub root_sectors : fs.bpb.root_dir_sectors ≡ (fs.bpb.root_entry_count * 32 + 511) / 512
  pub files_after_root :
      fs.bpb.first_data_sector ≡ fs.bpb.first_root_sector + fs.bpb.root_dir_sectors

-- The entry that a file of this name stands in, or is going to.
pub record Place (fs : Fat16) (fat_name : Table ℕ) (i : ℕ) (e : Table ℕ) : Type 0 where
  pub inside : i < fs.bpb.root_entry_count
  pub pass : AllPass fs.bpb fs.drive fat_name 0 i
  pub hit : Hit fat_name e

-- No entry for the name, and none that is free or behind the end.
abbrev pub IsDirectoryFull : Fat16 → (fat_name : Table ℕ) → Type 0
IsDirectoryFull fs fat_name =
    (find_root_entry fs.bpb fat_name fs.drive ≡ none)
    × (find_free_root_entry fs.bpb fs.drive ≡ none)

pub target_cases :
    (fuel : ℕ) (fs : Fat16) (fat_name : Table ℕ)
    → IsGood fs.drive
    → 65530 < fuel
    → fat_name 0 ≢ 0
    → fat_name 0 ≢ 0xe5
    → ((target fuel fat_name fs ≡ some none) × IsDirectoryFull fs fat_name)
      ⊎ ((i : ℕ) × (e : Table ℕ) × (fat : Table ℕ) × (target fuel fat_name fs
            ≡ some (some (i, e, fat)))
          × Place fs fat_name i e)
target_cases fuel fs fat_name good enough nz live =
    elim (Option-cases (find_root_entry fs.bpb fat_name fs.drive)) [
      | inr ((i, e), found) ↦
          let (lo, hi, same, hit, pass) =
            find_entry-some fs.bpb fs.drive good fat_name fs.bpb.root_entry_count 0 i e found in
          let le = count_from-le (λ k. not (fs.fat_table k == 0)) 0xfff8 0 in
          let (fat, ends) =
            free_chain_ends fuel fs.fat_entries (first_cluster e) fs.fat_table
              (omega (arith, le, enough)) in
          inr (
            i,
            e,
            fat,
            rw (target, found) (rw ends refl),
            record { inside = omega (arith, hi); pass = pass; hit = rw same hit },
          )
      | inl missing ↦ elim (Option-cases (find_free_root_entry fs.bpb fs.drive)) [
        | inl none_free ↦ inl (rw (target, missing) (rw none_free refl), (missing, none_free))
        | inr (i, free) ↦
            let (lo, hi, pass) =
              find_free-some fs.bpb fs.drive good fat_name fs.bpb.root_entry_count 0 i missing
                free in
            inr (
              i,
              new_entry fat_name,
              fs.fat_table,
              rw (target, missing) (rw free refl),
              record {
                inside = omega (arith, hi);
                pass = pass;
                hit = new_entry-Hit fat_name nz live;
              },
            )
      ]
    ]
