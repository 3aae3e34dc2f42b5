-- ===== src/Fat16/Saved.antt =====
-- write_file and then read_file of src/fat16.rs.
use sysrust.Common.{
  ℕ, ◌+◌, ◌/◌, ◌≡◌, ◌≢◌, ◌≤◌, ◌<◌, ◌⊎◌, inl, inr, true, false, List, some, if◌then◌else◌, Table,
  arith, refl, ap, ◌∙◌, sym,
}
use sysrust.Fat16.{Drive, Fat16, name_to_83}
use sysrust.Fat16.Directory.{first_cluster, entry_at}
use sysrust.Fat16.Files.{Writer, write_file, write_target, first_round, after_loop, target, finish}
use sysrust.Fat16.Writing.{IsFull, Written}
use sysrust.Fat16.Rounds.{write_clusters-Ended}
use sysrust.Fat16.Entries.{root_entry}
use sysrust.Fat16.Target.{IsMounted, Place, IsDirectoryFull, target_cases, hits_ext}
use sysrust.Fat16.Found.{Stored_ext, Stored_at, Stored-lt, ReadsBack, Holds, Holds-ReadsBack}
use sysrust.Fat16.Settled.{
  IsFlushed, finish-Settled, Passes-same, sized_back, cluster_back, name_back,
}

-- The disk has the table, and its sectors before it are as they were.
pub record IsSynced (fs fs' : Fat16) : Type 0 where
  pub same_bpb : fs'.bpb ≡ fs.bpb
  pub same_entries : fs'.fat_entries ≡ fs.fat_entries
  pub copy : IsFlushed fs.bpb fs'.fat_table fs'.drive
  pub front : (l : ℕ) → l < fs.bpb.first_fat_sector → fs'.drive.sectors l ≡ fs.drive.sectors l

finish-Holds :
    (fat_name src : Table ℕ) (size i : ℕ) (e : Table ℕ) (fs : Fat16) (w0 w : Writer)
    → IsMounted fs size
    → Place fs fat_name i e
    → w0.offset ≡ 0
    → w0.first_cluster ≡ 0
    → w0.drive ≡ fs.drive
    → Written fs.bpb fs.fat_entries size src w0 w
    → (fs' : Fat16) × (finish i e size w fs ≡ (true, fs'))
      × IsMounted fs' size
      × Holds fat_name src size fs'
      × IsSynced fs fs'
finish-Holds fat_name src size i e fs w0 w m p start none_yet from r =
    let b = fs.bpb in
    let (d', ends, q, copy) = finish-Settled size i e fs w r.good m.root_after_fats in
    let e' = root_entry b d' i in
    let in_root : (k : ℕ) → k ≤ i → b.first_root_sector + k / 16 < b.first_data_sector =
      λ k le. omega (arith, le, p.inside, m.files_after_root, m.root_sectors) in
    let old : (k : ℕ) → k < i → root_entry b d' k ≡ root_entry b fs.drive k = λ k lt.
      q.others k (omega (arith, lt))
      ∙ ap (entry_at k) (
          r.kept_sectors (b.first_root_sector + k / 16)
            (λ c _ _ _. inl (omega (arith, in_root k (omega (arith, lt))))))
      ∙ ap (λ (d : Drive). root_entry b d k) from in
    (
      record fs { fat_table = w.fat; drive = d' },
      ends,
      record {
        ready = m.ready;
        good = q.good;
        sane = m.sane;
        root_after_fats = m.root_after_fats;
        root_sectors = m.root_sectors;
        files_after_root = m.files_after_root;
      },
      record {
        index = i;
        inside = p.inside;
        pass = λ k lo hi.
            Passes-same fat_name (root_entry b fs.drive k) (root_entry b d' k) (old k hi)
              (p.pass k lo hi);
        hit = hits_ext fat_name e e' (name_back e e' size w.first_cluster q.here) p.hit;
        sized = sized_back e e' size w.first_cluster q.here (omega (arith, m.sane.short));
        chain = λ pos.
            let more : w0.offset < size = omega (arith, start, pos) in
            let first = r.first none_yet more in
            let small =
              Stored-lt b fs.fat_entries size src w.fat w.drive r.head w0.offset more r.chain in
            let back =
              cluster_back e e' size w.first_cluster q.here
                (omega (arith, first, small, m.sane.small)) in
            let there =
              Stored_ext b fs.fat_entries size src w.fat w.drive d' r.head w0.offset
                (λ l lo. q.files l (omega (arith, lo, in_root i (omega arith)))) r.chain in
            Stored_at b fs.fat_entries size src w.fat d' r.head w0.offset (first_cluster e') 0
              (sym (back ∙ first)) start there;
      },
      record {
        same_bpb = refl;
        same_entries = refl;
        copy = copy;
        front = λ l lt.
            q.front l lt (omega (arith, lt, m.root_after_fats))
            ∙ r.kept_sectors l
                (λ c _ _ _. inl (omega (arith, lt, m.root_after_fats, m.files_after_root)))
            ∙ ap (λ (d : Drive). d.sectors l) from;
      },
    )

pub write_file_ready :
    (name : List ℕ) (src : Table ℕ) (size fuel : ℕ) (fs : Fat16)
    → fs.fat16_ready ≡ true
    → write_file name src size true fuel fs
      ≡ write_target src size true fuel fs (target fuel (name_to_83 name) fs)
write_file_ready name src size fuel fs ready =
    ap
      (λ r.
        if r
        then write_target src size true fuel fs (target fuel (name_to_83 name) fs)
        else some (false, fs))
      ready

-- Every end of write_file, with a buffer for a cluster.
pub write_file_cases :
    (name : List ℕ) (src : Table ℕ) (size fuel : ℕ) (fs : Fat16)
    → IsMounted fs size
    → 65530 < fuel
    → size < fuel
    → name_to_83 name 0 ≢ 0
    → name_to_83 name 0 ≢ 0xe5
    → (fs' : Fat16) × (((write_file name src size true fuel fs ≡ some (true, fs'))
          × IsMounted fs' size
          × Holds (name_to_83 name) src size fs'
          × IsSynced fs fs')
        ⊎ ((write_file name src size true fuel fs ≡ some (false, fs'))
            × (IsDirectoryFull fs (name_to_83 name) ⊎ IsFull fs.fat_entries fs'.fat_table)))
write_file_cases name src size fuel fs m enough long nz live =
    let fat_name = name_to_83 name in
    let goes = write_file_ready name src size fuel fs m.ready in
    let next = write_target src size true fuel fs in
    elim (target_cases fuel fs fat_name m.good enough nz live) [
      | inl (none_free, full) ↦ (fs, inr (goes ∙ ap next none_free, inl full))
      | inr (i, e, fat, chosen, p) ↦
          let w0 = first_round fat fs in
          elim (write_clusters-Ended fs.bpb fs.fat_entries size src fuel w0 m.sane m.good
            (λ some_prev. absurd (some_prev refl)) (omega arith) (omega (arith, long))) [
              | inr (w, runs, full) ↦ (
                record fs { fat_table = w.fat; drive = w.drive },
                inr (goes ∙ ap next chosen ∙ ap (after_loop i e size fs) runs, inr full),
              )
              | inl (w, runs, r) ↦
                  let (fs', ends, m', holds, synced) =
                    finish-Holds fat_name src size i e fs w0 w m p refl refl refl r in
                  (
                    fs',
                    inl (
                      goes ∙ ap next chosen ∙ ap (after_loop i e size fs) runs ∙ ap some ends,
                      m',
                      holds,
                      synced,
                    ),
                  )
            ]
    ]

-- On a mounted disk whose regions follow each other, whose drive reports no error and whose table
-- has at most 65528 entries, with a cluster buffer, with fuel above 65530 and the size, and with a
-- name that starts with neither 0 nor 0xE5 in its 8.3 form, write_file ends; it either returns 0,
-- and then the disk is still mounted in the same way and read_file of the name, into a buffer of
-- at least the size, returns the size and the bytes written; or it returns -1, and then the
-- directory has no entry for the name and no free one, or no cluster is free in the table.
pub write_file-ReadsBack :
    (name : List ℕ) (src : Table ℕ) (size fuel : ℕ) (fs : Fat16)
    → IsMounted fs size
    → 65530 < fuel
    → size < fuel
    → name_to_83 name 0 ≢ 0
    → name_to_83 name 0 ≢ 0xe5
    → (fs' : Fat16) × (((write_file name src size true fuel fs ≡ some (true, fs'))
          × IsMounted fs' size
          × ReadsBack name src size fs')
        ⊎ ((write_file name src size true fuel fs ≡ some (false, fs'))
            × (IsDirectoryFull fs (name_to_83 name) ⊎ IsFull fs.fat_entries fs'.fat_table)))
write_file-ReadsBack name src size fuel fs m enough long nz live =
    let (fs', outcome) = write_file_cases name src size fuel fs m enough long nz live in
    (
      fs',
      elim outcome [
        | inl (done, m', holds, synced) ↦ inl (done, m', Holds-ReadsBack name src size fs' m' holds)
        | inr full ↦ inr full
      ],
    )
