-- ===== src/Fat16/Reading.antt =====
-- The loop of read_file in src/fat16.rs over a chain that holds the bytes of a file.
use sysrust.Common.{
  ℕ, zero, suc, ◌+◌, ◌-◌, ◌*◌, ◌≡◌, ◌≤◌, ◌<◌, inl, inr, true, false, some, ltb, leb, ◌&&◌,
  if◌then◌else◌, Table, arith, refl, ap, ◌∙◌, sym, Bool-cases, ltb→lt, ltb-false,
}
use sysrust.Fat16.{Drive, Bpb, Fat16, read_cluster, cluster_lba, fat_next, paste}
use sysrust.Fat16.Files.{got, read_clusters}
use sysrust.Fat16.Clusters.{IsGood, byte_from, read_each-IsGood, paste-hit, paste-miss}

-- The bytes of a file that one cluster takes from `off`.
abbrev pub piece : Bpb → (size off : ℕ) → ℕ
piece b size off = if ltb size (off + b.cluster_size) then size - off else b.cluster_size

-- From cluster `c` on, the chain holds the bytes of `src` from `off` up to `size`.
pub data Stored (b : Bpb) (fat_entries size : ℕ) (src fat : Table ℕ) (d : Drive)
    : (c off : ℕ) → Type 0 where
  ended : {c off : ℕ} → size ≡ off → Stored b fat_entries size src fat d c off
  linked :
      {c off : ℕ}
      → off < size
      → 2 ≤ c
      → c < fat_entries
      → ((j : ℕ) → j < piece b size off → byte_from d (cluster_lba b c) j ≡ src (off + j))
      → Stored b fat_entries size src fat d (fat c) (off + piece b size off)
      → Stored b fat_entries size src fat d c off

-- The bytes from `off` on are those of `src`, and the others those of `buf`.
abbrev pub Filled : (size off : ℕ) (src buf buf' : Table ℕ) → Type 0
Filled size off src buf buf' =
    ((i : ℕ) → off ≤ i → i < size → buf' i ≡ src i) × ((i : ℕ) → i < off → buf' i ≡ buf i)

read_cluster-IsGood :
    (fs : Fat16) (c : ℕ)
    → IsGood fs.drive
    → 2 ≤ c
    → (cb : Table ℕ) × (read_cluster fs.bpb c (λ i. 0) fs.drive ≡ some cb)
      × ((j : ℕ)
          → j < fs.bpb.sectors_per_cluster * 512
          → cb j ≡ byte_from fs.drive (cluster_lba fs.bpb c) j)
read_cluster-IsGood fs c good two =
    let (cb, ends, inside, before) =
      read_each-IsGood fs.bpb.sectors_per_cluster 0 (cluster_lba fs.bpb c) (λ i. 0) fs.drive good in
    let e : ltb c 2 ≡ false = ground (arith, two) in
    (cb, rw e ends, λ j lt. inside j (omega arith) (omega (arith, lt)))

read_clusters_step :
    (fs : Fat16) (fuel size off c : ℕ) (buf cb : Table ℕ)
    → off < size
    → 2 ≤ c
    → c < fs.fat_entries
    → fs.fat_entries ≤ 0xfff8
    → read_cluster fs.bpb c (λ i. 0) fs.drive ≡ some cb
    → read_clusters (suc fuel) fs c (size - off) off buf
      ≡ read_clusters fuel fs
          (fs.fat_table c)
          (size - (off + piece fs.bpb size off))
          (off + piece fs.bpb size off)
          (paste buf off (piece fs.bpb size off) cb)
unfolding read_clusters
read_clusters_step fs fuel size off c buf cb lt two last small ends =
    let n = piece fs.bpb size off in
    let go : (ltb 0 (size - off) && (leb 2 c && ltb c 0xfff8)) ≡ true =
      ground (arith, lt, two, last, small) in
    let same : (if ltb (size - off) fs.bpb.cluster_size then size - off else fs.bpb.cluster_size)
        ≡ n =
      ground (arith, lt) in
    let follows : fat_next fs.fat_entries fs.fat_table c ≡ fs.fat_table c = ground (arith, last) in
    let left : size - off - n ≡ size - (off + n) = omega arith in
    rw (read_clusters, go) (rw (ends, same, follows, left) refl)

pub read_clusters-Filled :
    (size : ℕ) (src : Table ℕ) (fs : Fat16) (fuel off c : ℕ) (buf : Table ℕ)
    → IsGood fs.drive
    → fs.bpb.cluster_size ≡ fs.bpb.sectors_per_cluster * 512
    → 0 < fs.bpb.cluster_size
    → fs.fat_entries ≤ 0xfff8
    → off ≤ size
    → size - off < fuel
    → Stored fs.bpb fs.fat_entries size src fs.fat_table fs.drive c off
    → (buf' : Table ℕ) × (read_clusters fuel fs c (size - off) off buf ≡ some (got size buf'))
      × Filled size off src buf buf'
unfolding read_clusters
read_clusters-Filled size src fs zero off c buf good cs pos small le enough stored =
    absurd (omega (arith, enough))
read_clusters-Filled size src fs (suc fuel) off c buf good cs pos small le enough (ended e) =
    let z : ltb 0 (size - off) ≡ false = ground (arith, e) in
    (
      buf,
      rw (read_clusters, z) (ap (λ o. some (got o buf)) (sym e)),
      (λ i lo hi. absurd (omega (arith, lo, hi, e)), λ i lo. refl),
    )
read_clusters-Filled size src fs (suc fuel) off c buf good cs pos small le enough
      (linked lt two last here rest) =
    let n = piece fs.bpb size off in
    let n_pos : 0 < n = ground (arith, lt, pos) in
    let n_le : (off + n ≤ size) × (n ≤ fs.bpb.cluster_size) = ground (arith, lt) in
    let (cb, ends, at) = read_cluster-IsGood fs c good two in
    let (buf', runs, (filled, kept)) =
      read_clusters-Filled size src fs fuel (off + n) (fs.fat_table c) (paste buf off n cb) good cs
        pos small n_le.0 (omega (arith, enough, n_pos)) rest in
    (
      buf',
      read_clusters_step fs fuel size off c buf cb lt two last small ends ∙ runs,
      (
        λ i lo hi. elim (Bool-cases (ltb i (off + n))) [
          | inl now ↦
              let lt_n = ltb→lt i (off + n) now in
              let e : off + (i - off) ≡ i = omega (arith, lo) in
              kept i lt_n
              ∙ paste-hit buf off n i cb lo lt_n
              ∙ at (i - off) (omega (arith, lt_n, n_le.1, cs))
              ∙ here (i - off) (omega (arith, lt_n))
              ∙ ap src e
          | inr later ↦ filled i (ltb-false i (off + n) later) hi
        ],
        λ i lo. kept i (omega (arith, lo)) ∙ paste-miss buf off n i cb (inl lo),
      ),
    )
