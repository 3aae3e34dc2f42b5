-- ===== src/Fat16/Settled.antt =====
-- The last steps of write_file in src/fat16.rs: the entry, and the copies of the table.
use sysrust.Common.{
  inl, ℕ, ◌+◌, ◌*◌, ◌/◌, ◌^◌, ◌≡◌, ◌≢◌, ◌≤◌, ◌<◌, inr, true, Table, arith, refl, ap, ◌∙◌,
}
use sysrust.Fat16.{Drive, Bpb, Fat16, fat_raw}
use sysrust.Fat16.Directory.{first_cluster, size_of, entry_at, set_first_cluster, set_size}
use sysrust.Fat16.Files.{Writer, finish}
use sysrust.Fat16.Clusters.{byte_from, IsGood}
use sysrust.Fat16.Chains.{flush_each-IsGood}
use sysrust.Fat16.Entries.{root_entry, Passes, write_root_entry-EntryPlaced}

-- The disk after the entry `new` is written at `i`, and the copies of the table.
pub record Settled (b : Bpb) (i : ℕ) (new : Table ℕ) (d d' : Drive) : Type 0 where
  pub good : IsGood d'
  pub here : (k : ℕ) → k < 32 → root_entry b d' i k ≡ new k
  pub others : (k : ℕ) → k ≢ i → root_entry b d' k ≡ root_entry b d k
  pub files : (l : ℕ) → b.first_root_sector + i / 16 < l → d'.sectors l ≡ d.sectors l
  pub front :
      (l : ℕ) → l < b.first_fat_sector → l < b.first_root_sector → d'.sectors l ≡ d.sectors l

-- The first copy of the table on the disk is the cached one.
abbrev pub IsFlushed : Bpb → (fat : Table ℕ) → Drive → Type 0
IsFlushed b fat d =
    (j : ℕ)
    → 0 < b.num_fats
    → j < b.fat_size_16 * 512
    → byte_from d b.first_fat_sector j ≡ fat_raw fat j

pub finish-Settled :
    (size i : ℕ) (e : Table ℕ) (fs : Fat16) (w : Writer)
    → IsGood w.drive
    → fs.bpb.first_root_sector ≡ fs.bpb.first_fat_sector + fs.bpb.num_fats * fs.bpb.fat_size_16
    → (d' : Drive) × (finish i e size w fs ≡ (true, record fs { fat_table = w.fat; drive = d' }))
      × Settled fs.bpb i (set_size size (set_first_cluster w.first_cluster e)) w.drive d'
      × IsFlushed fs.bpb w.fat d'
finish-Settled size i e fs w good layout =
    let b = fs.bpb in
    let new = set_size size (set_first_cluster w.first_cluster e) in
    let (d2, put, q) = write_root_entry-EntryPlaced b i new w.drive good in
    let (d3, flushed, good3, kept, copy) =
      flush_each-IsGood b.num_fats b.first_fat_sector b.fat_size_16 (fat_raw w.fat) d2 q.good in
    let behind : (l : ℕ) → b.first_root_sector ≤ l → d3.sectors l ≡ d2.sectors l =
      λ l lo. kept l (inr (omega (arith, lo, layout))) in
    let entry_now : (k : ℕ) → root_entry b d3 k ≡ root_entry b d2 k =
      λ k. ap (entry_at k) (behind (b.first_root_sector + k / 16) (omega arith)) in
    (
      d3,
      rw (finish, put) (rw flushed refl),
      record {
        good = good3;
        here = λ k lt. ap (λ (t : Table ℕ). t k) (entry_now i) ∙ q.here k lt;
        others = λ k apart. entry_now k ∙ q.others k apart;
        files = λ l lt. behind l (omega (arith, lt)) ∙ q.sectors l (omega (arith, lt));
        front = λ l lt lt'. kept l (inl lt) ∙ q.sectors l (omega (arith, lt'));
      },
      copy,
    )

pub Passes-same : (fat_name e e' : Table ℕ) → e' ≡ e → Passes fat_name e → Passes fat_name e'
Passes-same fat_name e e' same pass = rw same pass

-- The fields of the new entry, read back.
module _ (e e' : Table ℕ) (size c : ℕ)
    (same : (k : ℕ) → k < 32 → e' k ≡ set_size size (set_first_cluster c e) k) where
  pub sized_back : size < 2 ^ 32 → size_of e' ≡ size
  sized_back small = omega (
    arith,
    same 28 (omega arith),
    same 29 (omega arith),
    same 30 (omega arith),
    same 31 (omega arith),
    small,
  )

  pub cluster_back : c < 2 ^ 16 → first_cluster e' ≡ c
  cluster_back small = omega (arith, same 26 (omega arith), same 27 (omega arith), small)

  pub name_back : (k : ℕ) → k < 12 → e k ≡ e' k
  name_back k lt = ground (arith, same k)
