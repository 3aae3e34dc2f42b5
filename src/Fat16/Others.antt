-- ===== src/Fat16/Others.antt =====
-- What write_file of src/fat16.rs leaves of the other files.
use mathlib.Core.Path.{subst}
use sysrust.Common.{
  ℕ, zero, suc, ◌+◌, ◌/◌, ◌≡◌, ◌≢◌, ◌<◌, inl, inr, true, false, List, Option, some, none, ◌==◌,
  ◌||◌, Table, arith, refl, ap, ◌∙◌, sym, Bool-cases, Option-cases, &&-false,
}
use sysrust.Fat16.{Drive, Bpb, Fat16, name_to_83}
use sysrust.Fat16.Directory.{
  first_cluster, size_of, entry_at, set_first_cluster, set_size, same_bytes, hits, find_free,
  find_root_entry, find_free_root_entry,
}
use sysrust.Fat16.Files.{
  Writer, write_file, write_target, first_round, after_loop, target, new_entry,
}
use sysrust.Fat16.Clusters.{IsGood}
use sysrust.Fat16.Writing.{Written}
use sysrust.Fat16.Rounds.{write_clusters-Ended}
use sysrust.Fat16.Entries.{root_entry, Passes, Hit, find_free_step}
use sysrust.Fat16.Target.{IsMounted, same_bytes_ext}
use sysrust.Fat16.Found.{Stored_ext, Stored_at, ReadsBack, Holds, Holds-ReadsBack}
use sysrust.Fat16.Settled.{Settled, finish-Settled, Passes-same, name_back}
use sysrust.Fat16.Kept.{IsReserved, Written-Stored}
use sysrust.Fat16.Saved.{write_file_ready}

find_free-free :
    (b : Bpb) (d : Drive) (good : IsGood d) (n i m : ℕ)
    → find_free n i b d ≡ some m
    → (((root_entry b d m 0 == 0) || (root_entry b d m 0 == 0xe5)) ≡ true) × (m < i + n)
unfolding find_free
find_free-free b d good zero i m found = absurd (cc)
find_free-free b d good (suc n) i m found =
    let step = sym (find_free_step b d good (λ k. 0) n i) ∙ found in
    elim (Bool-cases ((root_entry b d i 0 == 0) || (root_entry b d i 0 == 0xe5))) [
      | inl z ↦
          (let at : i ≡ m = (let here = rw z at step in cc) in (rw (sym at) z, omega (arith, at)))
      | inr z ↦
          (let (free, lt) = find_free-free b d good n (i + 1) m (rw z at step) in
            (free, omega (arith, lt)))
    ]

Hit-same : (fat_name e e' : Table ℕ) → e' ≡ e → Hit fat_name e → Hit fat_name e'
Hit-same fat_name e e' same hit = rw same hit

-- A file's entry is none that is free.
Hit-apart : (fat_name e : Table ℕ) → Hit fat_name e → ((e 0 == 0) || (e 0 == 0xe5)) ≡ true → ⊥
unfolding hits
Hit-apart fat_name e (nz, hit) free = ground arith

-- The state of a call that made a new file: `d` and `w.drive` before and after the data.
module _ (fs : Fat16) (size i : ℕ) (fat_name : Table ℕ) (w : Writer) (d' : Drive) (src : Table ℕ)
    (free : ((root_entry fs.bpb fs.drive i 0 == 0) || (root_entry fs.bpb fs.drive i 0 == 0xe5))
      ≡ true)
    (r : Written fs.bpb fs.fat_entries size src (first_round fs.fat_table fs) w)
    (q : Settled fs.bpb i
      (set_size size (set_first_cluster w.first_cluster (new_entry fat_name)))
      w.drive
      d')
    (inside : i < fs.bpb.root_entry_count) (size' : ℕ) (m : IsMounted fs size') where
  in_root :
      (k : ℕ)
      → k < fs.bpb.root_entry_count
      → fs.bpb.first_root_sector + k / 16 < fs.bpb.first_data_sector
  in_root k lt = omega (arith, lt, m.files_after_root, m.root_sectors)

  entry_kept :
      (k : ℕ)
      → k ≢ i
      → k < fs.bpb.root_entry_count
      → root_entry fs.bpb d' k ≡ root_entry fs.bpb fs.drive k
  entry_kept k apart lt =
      q.others k apart
      ∙ ap (entry_at k) (
          r.kept_sectors (fs.bpb.first_root_sector + k / 16)
            (λ c _ _ _. inl (omega (arith, in_root k lt))))

  -- The new entry is not taken for another name.
  new-Passes :
      (other : Table ℕ)
      → fat_name 0 ≢ 0
      → same_bytes 11 0 fat_name other ≡ false
      → Passes other (root_entry fs.bpb d' i)
  unfolding hits
  new-Passes other nz differ =
      let e' = root_entry fs.bpb d' i in
      let name = name_back (new_entry fat_name) e' size w.first_cluster q.here in
      let bytes = same_bytes_ext 11 0 fat_name e' other (λ k lt. ground (arith, name k, lt)) in
      let no : same_bytes 11 0 e' other ≡ false = sym bytes ∙ differ in
      (ground (arith, name 0, nz), rw (hits, no) (&&-false _))

  other-Holds :
      (other src' : Table ℕ)
      → fat_name 0 ≢ 0
      → same_bytes 11 0 fat_name other ≡ false
      → (h : Holds other src' size' fs)
      → IsReserved fs.bpb size' fs.fat_table (first_cluster (root_entry fs.bpb fs.drive h.index)) 0
      → Holds other src' size' (record fs { fat_table = w.fat; drive = d' })
  other-Holds other src' nz differ h reserved =
      let o = h.index in
      let apart : o ≢ i =
        λ e. Hit-apart other (root_entry fs.bpb fs.drive o) h.hit (rw (sym e) at free) in
      let same = entry_kept o apart h.inside in
      record {
        index = o;
        inside = h.inside;
        pass = λ k lo hi. elim (Bool-cases (k == i)) [
          | inl here ↦ (let e : k ≡ i = ground arith in rw e (new-Passes other nz differ))
          | inr there ↦
              Passes-same other (root_entry fs.bpb fs.drive k) (root_entry fs.bpb d' k)
                (entry_kept k (ground arith) (omega (arith, hi, h.inside))) (h.pass k lo hi)
        ];
        hit = Hit-same other (root_entry fs.bpb fs.drive o) (root_entry fs.bpb d' o) same h.hit;
        sized = ap size_of same ∙ h.sized;
        chain = λ pos.
            let c = first_cluster (root_entry fs.bpb fs.drive o) in
            let there =
              Written-Stored fs.bpb fs.fat_entries size size' src src' (first_round fs.fat_table fs)
                w c 0 m.sane.in_bytes r refl (h.chain pos) reserved in
            let after =
              Stored_ext fs.bpb fs.fat_entries size' src' w.fat w.drive d' c 0
                (λ l lo. q.files l (omega (arith, lo, in_root i inside))) there in
            Stored_at fs.bpb fs.fat_entries size' src' w.fat d' c 0
              (first_cluster (root_entry fs.bpb d' o)) 0 (sym (ap first_cluster same)) refl after;
      }

ReadsBack-at :
    (name : List ℕ) (src : Table ℕ) (size : ℕ) (fs fs' : Fat16)
    → fs ≡ fs'
    → ReadsBack name src size fs
    → ReadsBack name src size fs'
ReadsBack-at name src size fs fs' same back = subst (ReadsBack name src size) same back

target_new :
    (fuel : ℕ) (fs : Fat16) (fat_name : Table ℕ) (found : Option ℕ)
    → find_root_entry fs.bpb fat_name fs.drive ≡ none
    → find_free_root_entry fs.bpb fs.drive ≡ found
    → target fuel fat_name fs
      ≡ elim found [ none ↦ some none | some i ↦ some (some (i, new_entry fat_name, fs.fat_table)) ]
target_new fuel fs fat_name found missing free = rw (target, missing) (rw free refl)

-- On a mounted disk whose regions follow each other, whose drive reports no error and whose table
-- has at most 65528 entries: let another file be found in the directory with a chain that holds
-- its bytes and has no free cluster, and let a new name, whose 8.3 form differs from the other and
-- does not start with 0, be in no entry. When write_file of the new name, with a cluster buffer
-- and with fuel above the size, returns 0, read_file of the other name still returns its size and
-- its bytes.
pub write_file-ReadsBack-other :
    (name other : List ℕ) (src src' : Table ℕ) (size size' fuel : ℕ) (fs fs' : Fat16)
    → IsMounted fs size
    → IsMounted fs size'
    → size < fuel
    → name_to_83 name 0 ≢ 0
    → same_bytes 11 0 (name_to_83 name) (name_to_83 other) ≡ false
    → find_root_entry fs.bpb (name_to_83 name) fs.drive ≡ none
    → (h : Holds (name_to_83 other) src' size' fs)
    → IsReserved fs.bpb size' fs.fat_table (first_cluster (root_entry fs.bpb fs.drive h.index)) 0
    → write_file name src size true fuel fs ≡ some (true, fs')
    → ReadsBack other src' size' fs'
write_file-ReadsBack-other name other src src' size size' fuel fs fs' m m' long nz differ missing h
      reserved wrote =
    let fat_name = name_to_83 name in
    let next = write_target src size true fuel fs in
    let start = sym (write_file_ready name src size fuel fs m.ready) ∙ wrote in
    elim (Option-cases (find_free_root_entry fs.bpb fs.drive)) [
      | inl full ↦
          absurd
            (let t = sym (ap next (target_new fuel fs fat_name none missing full)) ∙ start in cc)
      | inr (i, found) ↦
          let w0 = first_round fs.fat_table fs in
          let e = new_entry fat_name in
          let chosen = sym (ap next (target_new fuel fs fat_name (some i) missing found)) ∙ start in
          let (free, lt) =
            find_free-free fs.bpb fs.drive m.good fs.bpb.root_entry_count 0 i found in
          let inside : i < fs.bpb.root_entry_count = omega (arith, lt) in
          elim (write_clusters-Ended fs.bpb fs.fat_entries size src fuel w0 m.sane m.good
            (λ some_prev. absurd (some_prev refl)) (omega arith) (omega (arith, long))) [
              | inr (w, runs, full) ↦
                  absurd (let t = sym (ap (after_loop i e size fs) runs) ∙ chosen in cc)
              | inl (w, runs, r) ↦
                  let (d', ends, q, _) = finish-Settled size i e fs w r.good m.root_after_fats in
                  let t = sym (ap (after_loop i e size fs) runs ∙ ap some ends) ∙ chosen in
                  let same : record fs { fat_table = w.fat; drive = d' } ≡ fs' = cc in
                  let mounted : IsMounted (record fs { fat_table = w.fat; drive = d' }) size' =
                    record {
                      ready = m.ready;
                      good = q.good;
                      sane = m'.sane;
                      root_after_fats = m.root_after_fats;
                      root_sectors = m.root_sectors;
                      files_after_root = m.files_after_root;
                    } in
                  let holds =
                    other-Holds fs size i fat_name w d' src free r q inside size' m'
                      (name_to_83 other) src' nz differ h reserved in
                  ReadsBack-at other src' size' (record fs { fat_table = w.fat; drive = d' }) fs'
                    same
                    (Holds-ReadsBack other src' size' (record fs { fat_table = w.fat; drive = d' })
                      mounted holds)
            ]
    ]
