-- ===== src/Fat16/Remount.antt =====
-- write_file, a new start, and read_file of src/fat16.rs: what is on the disk itself.
use mathlib.Core.Path.{subst}
use sysrust.Common.{
  ℕ, ◌*◌, ◌/◌, ◌%◌, ◌^◌, ◌≡◌, ◌≢◌, ◌<◌, inl, inr, Bool, true, false, not, List, some, ◌==◌, ◌||◌,
  Table, arith, refl, ap, ◌∙◌, sym,
}
use sysrust.Fat16.{Drive, Bpb, Fat16, name_to_83}
use sysrust.Fat16.Directory.{first_cluster}
use sysrust.Fat16.Files.{write_file}
use sysrust.Fat16.Mount.{word16, parse_bpb, derive, load_fat, init}
use sysrust.Fat16.Clusters.{IsGood, byte_from, read_each-IsGood}
use sysrust.Fat16.Entries.{root_entry}
use sysrust.Fat16.Target.{IsMounted}
use sysrust.Fat16.Found.{ReadsBack, Holds, Holds-ReadsBack}
use sysrust.Fat16.Reloaded.{load_fat-IsGood, cached_again, Stored_reloaded}
use sysrust.Fat16.Saved.{IsSynced, write_file_cases}

-- The boot sector of the mounted disk is the one that its fields came from.
pub record IsBooted (fs : Fat16) : Type 0 where
  pub parsed : (b : Bpb) → derive (parse_bpb (fs.drive.sectors 0) b) ≡ fs.bpb
  pub whole : fs.bpb.bytes_per_sector ≡ 512
  pub sized : 0 < fs.bpb.fat_size_16
  pub copies : 0 < fs.bpb.num_fats
  pub entries : fs.fat_entries ≡ fs.bpb.fat_size_16 * 512 / 2
  pub behind_boot : 0 < fs.bpb.first_fat_sector

init_runs :
    (any : Fat16) (d : Drive) (raw : Table ℕ)
    → let b = parse_bpb (d.sectors 0) any.bpb in
      IsGood d
      → b.bytes_per_sector ≡ 512
      → 0 < b.fat_size_16
      → 0 < b.num_fats
      → load_fat b.fat_size_16 0 b.reserved_sectors (λ i. 0) d ≡ some raw
      → init true (record any { drive = d }) ≡ (
        true,
        record {
          bpb = derive b;
          fat_table = λ i. word16 raw (i * 2);
          fat_entries = b.fat_size_16 * 512 / 2;
          fat16_ready = true;
          drive = d;
        },
      )
init_runs any d raw good whole sized copies loads =
    let b = parse_bpb (d.sectors 0) any.bpb in
    let pass : (not (b.bytes_per_sector == 512) || ((b.fat_size_16 == 0) || (b.num_fats == 0)))
        ≡ false =
      ground (arith, whole, sized, copies) in
    rw (init, good 0) (rw pass (rw loads refl))

reloaded-ReadsBack :
    (name : List ℕ) (src : Table ℕ) (size : ℕ) (fs : Fat16) (fat : Table ℕ)
    → IsMounted fs size
    → Holds (name_to_83 name) src size fs
    → ((i : ℕ) → i < fs.fat_entries → fat i ≡ fs.fat_table i % 2 ^ 16)
    → ReadsBack name src size (record fs { fat_table = fat })
reloaded-ReadsBack name src size fs fat m h same =
    Holds-ReadsBack name src size (record fs { fat_table = fat })
      (record {
        ready = m.ready;
        good = m.good;
        sane = m.sane;
        root_after_fats = m.root_after_fats;
        root_sectors = m.root_sectors;
        files_after_root = m.files_after_root;
      })
      (record {
        index = h.index;
        inside = h.inside;
        pass = h.pass;
        hit = h.hit;
        sized = h.sized;
        chain = λ pos.
            Stored_reloaded fs.bpb fs.fat_entries size src fs.fat_table fat fs.drive
              (first_cluster (root_entry fs.bpb fs.drive h.index)) 0 m.sane.small same
              (h.chain pos);
      })

restart-ReadsBack :
    (name : List ℕ) (src : Table ℕ) (size : ℕ) (fs fs' any : Fat16)
    → IsBooted fs
    → IsMounted fs' size
    → Holds (name_to_83 name) src size fs'
    → IsSynced fs fs'
    → (fs'' : Fat16) × (init true (record any { drive = fs'.drive }) ≡ (true, fs''))
      × ReadsBack name src size fs''
restart-ReadsBack name src size fs fs' any boot m h synced =
    let d = fs'.drive in
    let b = parse_bpb (d.sectors 0) any.bpb in
    let e : derive b ≡ fs'.bpb =
      ap (λ (t : Table ℕ). derive (parse_bpb t any.bpb)) (synced.front 0 boot.behind_boot)
      ∙ boot.parsed any.bpb
      ∙ sym synced.same_bpb in
    let e1 = e ∙ synced.same_bpb in
    let size_is : b.fat_size_16 ≡ fs.bpb.fat_size_16 = ap (λ (x : Bpb). x.fat_size_16) e1 in
    let copies_are : b.num_fats ≡ fs.bpb.num_fats = ap (λ (x : Bpb). x.num_fats) e1 in
    let first_is : b.reserved_sectors ≡ fs.bpb.first_fat_sector =
      ap (λ (x : Bpb). x.first_fat_sector) e1 in
    let (raw, loads, loaded, _) =
      read_each-IsGood b.fat_size_16 0 b.reserved_sectors (λ i. 0) d m.good in
    let runs =
      init_runs any d raw m.good (ap (λ (x : Bpb). x.bytes_per_sector) e1 ∙ boot.whole)
        (omega (arith, size_is, boot.sized)) (omega (arith, copies_are, boot.copies))
        (load_fat-IsGood b.fat_size_16 0 b.reserved_sectors (λ i. 0) d ∙ loads) in
    let again = λ (i : ℕ) (lt : i < fs'.fat_entries).
      cached_again fs.bpb fs'.fat_table raw d boot.copies synced.copy
        (λ j lt'.
          loaded j (omega arith) (omega (arith, lt', size_is)) ∙ ap (λ l. byte_from d l j) first_is)
        i (omega (arith, lt, synced.same_entries, boot.entries)) in
    let fat = λ (i : ℕ). word16 raw (i * 2) in
    let entries_are : b.fat_size_16 * 512 / 2 ≡ fs'.fat_entries =
      ap (λ n. n * 512 / 2) size_is ∙ sym boot.entries ∙ sym synced.same_entries in
    let disk = λ (x : Bpb) (n : ℕ) (r : Bool).
      let f : Fat16 = record {
        bpb = x;
        fat_table = fat;
        fat_entries = n;
        fat16_ready = r;
        drive = d;
      } in
      f in
    let same =
      ap (λ x. disk x fs'.fat_entries fs'.fat16_ready) (sym e)
      ∙ ap (λ n. disk (derive b) n fs'.fat16_ready) (sym entries_are)
      ∙ ap (disk (derive b) (b.fat_size_16 * 512 / 2)) m.ready in
    (
      record {
        bpb = derive b;
        fat_table = fat;
        fat_entries = b.fat_size_16 * 512 / 2;
        fat16_ready = true;
        drive = d;
      },
      runs,
      subst (ReadsBack name src size) same (reloaded-ReadsBack name src size fs' fat m h again),
    )

-- On a mounted disk whose regions follow each other, whose drive reports no error and whose table
-- has at most 65528 entries, whose fields are those of its boot sector and whose boot sector
-- stands before the tables: when write_file of a name that starts with neither 0 nor 0xE5 in its
-- 8.3 form returns 0, with a cluster buffer and with fuel above 65530 and the size, then init on
-- the drive that it leaves, from any other state of the memory and with a buffer for the table,
-- succeeds, and read_file of the name gives the size and the bytes written.
pub init-ReadsBack :
    (name : List ℕ) (src : Table ℕ) (size fuel : ℕ) (fs fs' any : Fat16)
    → IsMounted fs size
    → IsBooted fs
    → 65530 < fuel
    → size < fuel
    → name_to_83 name 0 ≢ 0
    → name_to_83 name 0 ≢ 0xe5
    → write_file name src size true fuel fs ≡ some (true, fs')
    → (fs'' : Fat16) × (init true (record any { drive = fs'.drive }) ≡ (true, fs''))
      × ReadsBack name src size fs''
init-ReadsBack name src size fuel fs fs' any m boot enough long nz live wrote =
    let (fs1, outcome) = write_file_cases name src size fuel fs m enough long nz live in
    elim outcome [
      | inr (failed, _) ↦ absurd (let t = sym failed ∙ wrote in cc)
      | inl (done, m', holds, synced) ↦
          let same : fs1 ≡ fs' = (let t = sym done ∙ wrote in cc) in
          subst
            (λ (x : Fat16).
              (fs'' : Fat16) × (init true (record any { drive = x.drive }) ≡ (true, fs''))
              × ReadsBack name src size fs'')
            same (restart-ReadsBack name src size fs fs1 any boot m' holds synced)
    ]
