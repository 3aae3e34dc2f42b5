-- ===== src/Fat16/Writing.antt =====
-- The loop of write_file in src/fat16.rs: the chain it makes, and what it leaves alone.
use native.Mathlib.Nat.{mul-le-mul_right}
use sysrust.Common.{
  ℕ, ◌+◌, ◌-◌, ◌*◌, ◌/◌, ◌%◌, ◌^◌, ◌≡◌, ◌≢◌, ◌≤◌, ◌<◌, ◌⊎◌, inl, inr, true, ◌==◌, ltb,
  if◌then◌else◌, Table, store, arith, refl, ap, ◌∙◌, Bool-cases, Option-cases, find_from,
  find_from-some, find_from-none, ltb→lt, ltb-false,
}
use sysrust.Fat16.{Drive, Bpb, cluster_lba, fat_alloc}
use sysrust.Fat16.Files.{Writer, write_size, cluster_data, advance}
use sysrust.Fat16.Clusters.{IsGood, Outside, Placed, byte_from}
use sysrust.Fat16.Reading.{Stored, ended, linked, piece}

-- The fields of the boot sector are in their ranges, and the table has less than 2^16 entries.
pub record IsSane (b : Bpb) (fat_entries size : ℕ) : Type 0 where
  pub in_bytes : b.cluster_size ≡ b.sectors_per_cluster * 512
  pub positive : 0 < b.cluster_size
  pub short : size + b.cluster_size < 2 ^ 32
  pub small : fat_entries ≤ 0xfff8

abbrev pub IsFull : (fat_entries : ℕ) → Table ℕ → Type 0
IsFull fat_entries fat = (c : ℕ) → 2 ≤ c → c < fat_entries → fat c ≢ 0

-- A sector that belongs to no free cluster.
abbrev pub IsTaken : Bpb → (fat_entries : ℕ) → Table ℕ → (l : ℕ) → Type 0
IsTaken b fat_entries fat l =
    (c : ℕ)
    → 2 ≤ c
    → c < fat_entries
    → fat c ≡ 0
    → Outside (cluster_lba b c) b.sectors_per_cluster l

pub record Free (fat_entries : ℕ) (fat : Table ℕ) (c : ℕ) : Type 0 where
  pub two : 2 ≤ c
  pub last : c < fat_entries
  pub free : fat c ≡ 0

-- fat_alloc takes the first free cluster, or finds none.
pub fat_alloc_cases :
    (fat_entries : ℕ) (fat : Table ℕ)
    → fat_entries ≤ 0xfff8
    → ((fat_alloc fat_entries fat ≡ (0, fat)) × IsFull fat_entries fat)
      ⊎ ((c : ℕ) × (fat_alloc fat_entries fat ≡ (c, store fat c 0xffff)) × Free fat_entries fat c)
fat_alloc_cases fe fat small =
    let p = λ (i : ℕ). fat i == 0 in
    let n : fe % 2 ^ 16 ≡ fe = omega (arith, small) in
    elim (Option-cases (find_from p (fe % 2 ^ 16 - 2) 2)) [
      | inl e ↦ inl (
        rw (fat_alloc, e) refl,
        λ c two last zero_at. ground (arith, find_from-none p (fe % 2 ^ 16 - 2) 2 e c, n),
      )
      | inr (c, e) ↦
          let (two, last, free, first) = find_from-some p (fe % 2 ^ 16 - 2) 2 c e in
          inr (
            c,
            rw (fat_alloc, e) refl,
            record { two = two; last = omega (arith, last, n); free = ground (arith, free) },
          )
    ]

mul-step : (a b s : ℕ) → a < b → a * s + s ≤ b * s
mul-step a b s lt =
    let step : (a + 1) * s ≤ b * s = mul-le-mul_right s (omega (arith, lt)) in omega (arith, step)

pub clusters_apart :
    (b : Bpb) (c c' l : ℕ)
    → 2 ≤ c
    → 2 ≤ c'
    → c' ≢ c
    → cluster_lba b c ≤ l
    → l < cluster_lba b c + b.sectors_per_cluster
    → Outside (cluster_lba b c') b.sectors_per_cluster l
clusters_apart b c c' l two two' apart lo hi = elim (Bool-cases (ltb c c')) [
  | inl lt ↦ inl (
      omega (
        arith,
        lo,
        hi,
        mul-step (c - 2) (c' - 2) b.sectors_per_cluster (omega (arith, ltb→lt c c' lt, two)),
      ))
  | inr ge ↦ inr (
      omega (
        arith,
        lo,
        hi,
        mul-step (c' - 2) (c - 2) b.sectors_per_cluster
            (omega (arith, ltb-false c c' ge, two', apart)),
      ))
]

-- What the rounds that are left do, from `w` to the end `w'`.
pub record Written (b : Bpb) (fat_entries size : ℕ) (src : Table ℕ) (w w' : Writer) : Type 0 where
  pub good : IsGood w'.drive
  pub kept_fat : (i : ℕ) → w.fat i ≢ 0 → i ≢ w.prev_cluster → w'.fat i ≡ w.fat i
  pub kept_sectors :
      (l : ℕ) → IsTaken b fat_entries w.fat l → w'.drive.sectors l ≡ w.drive.sectors l
  pub head : ℕ
  pub chain : Stored b fat_entries size src w'.fat w'.drive head w.offset
  pub linked_to : w.prev_cluster ≢ 0 → w.offset < size → w'.fat w.prev_cluster ≡ head
  pub first : w.first_cluster ≡ 0 → w.offset < size → w'.first_cluster ≡ head
  pub first_kept : w.first_cluster ≢ 0 → w'.first_cluster ≡ w.first_cluster

-- The table after a round that got cluster `c`.
abbrev pub chained : (fat : Table ℕ) (prev c : ℕ) → Table ℕ
chained fat prev c = if prev == 0 then store fat c 0xffff else store (store fat c 0xffff) prev c

module _ (fat : Table ℕ) (prev c : ℕ) (two : 2 ≤ c) (free : fat c ≡ 0) where
  pub chained_self : (prev ≢ 0 → fat prev ≢ 0) → chained fat prev c c ≢ 0
  chained_self used = ground (arith, used)

  chained_kept : (i : ℕ) → fat i ≢ 0 → i ≢ prev → (chained fat prev c i ≡ fat i) × (i ≢ c)
  chained_kept i taken other = ground arith

  chained_prev : prev ≢ 0 → fat prev ≢ 0 → (chained fat prev c prev ≡ c) × (prev ≢ c)
  chained_prev some_prev used = ground arith

  chained_free :
      (i : ℕ) → (prev ≢ 0 → fat prev ≢ 0) → chained fat prev c i ≡ 0 → (fat i ≡ 0) × (i ≢ c)
  chained_free i used zero_at = ground (arith, used)

module _ (b : Bpb) (fe size : ℕ) (src : Table ℕ) (sane : IsSane b fe size) (w : Writer) (c : ℕ)
    (d : Drive) (lt : w.offset < size) (f : Free fe w.fat c)
    (used : w.prev_cluster ≢ 0 → w.fat w.prev_cluster ≢ 0)
    (placed : Placed b.sectors_per_cluster 0
      (cluster_lba b c)
      (cluster_data src w.offset (write_size b size w.offset))
      w.drive
      d) where
  pub write_size-piece : write_size b size w.offset ≡ piece b size w.offset
  write_size-piece =
      let e : (w.offset + b.cluster_size) % 2 ^ 32 ≡ w.offset + b.cluster_size =
        omega (arith, lt, sane.short) in
      rw e refl

  abbrev after : Writer
  after = advance b src size c (store w.fat c 0xffff) d w

  -- The chain behind the cluster of this round.
  advance_next :
      (w' : Writer)
      → Written b fe size src after w'
      → Stored b fe size src w'.fat w'.drive (w'.fat c) (w.offset + piece b size w.offset)
  advance_next w' r = elim (Bool-cases (ltb after.offset size)) [
    | inl more ↦
        let e = r.linked_to (omega (arith, f.two)) (ltb→lt after.offset size more) in
        rw e (rw write_size-piece at r.chain)
    | inr done ↦
        ended (
          let stop = ltb-false after.offset size done in ground (arith, stop, write_size-piece, lt))
  ]

  -- Its bytes are in the cluster, and no later round writes there.
  advance_bytes :
      (w' : Writer) (j : ℕ)
      → Written b fe size src after w'
      → j < piece b size w.offset
      → byte_from w'.drive (cluster_lba b c) j ≡ src (w.offset + j)
  advance_bytes w' j r small =
      let n_le : piece b size w.offset ≤ b.cluster_size = ground (arith, lt) in
      let l = cluster_lba b c + j / 512 in
      let low : cluster_lba b c ≤ l = omega arith in
      let high : l < cluster_lba b c + b.sectors_per_cluster =
        omega (arith, small, n_le, sane.in_bytes) in
      let still = r.kept_sectors l (λ c' two last free.
        clusters_apart b c c' l f.two two
          (chained_free w.fat w.prev_cluster c f.two f.free c' used free).1 low high) in
      let e : ltb j (write_size b size w.offset) ≡ true = ground (arith, write_size-piece, small) in
      ap (λ (t : Table ℕ). t (j % 512)) still
      ∙ placed.inside j (omega arith) (omega (arith, small, n_le, sane.in_bytes))
      ∙ rw e refl

  -- The round leaves what the later rounds keep, and puts its cluster before their chain.
  pub advance-Written : (w' : Writer) → Written b fe size src after w' → Written b fe size src w w'
  advance-Written w' r =
      let prev = w.prev_cluster in
      let c_nz : c ≢ 0 = omega (arith, f.two) in
      record {
        good = r.good;
        kept_fat = λ i taken other.
            let (same, apart) = chained_kept w.fat prev c f.two f.free i taken other in
            r.kept_fat i (rw same taken) apart ∙ same;
        kept_sectors = λ l taken.
            r.kept_sectors l (λ c' two last free.
              taken c' two last (chained_free w.fat prev c f.two f.free c' used free).0)
            ∙ placed.outside l (
                let e : cluster_lba b c + 0 ≡ cluster_lba b c = omega arith in
                rw e (taken c f.two f.last f.free));
        head = c;
        chain = linked lt f.two f.last (λ j small. advance_bytes w' j r small) (advance_next w' r);
        linked_to = λ some_prev _.
            let (same, apart) = chained_prev w.fat prev c f.two f.free some_prev (used some_prev) in
            r.kept_fat prev (rw same c_nz) apart ∙ same;
        first = λ none_yet _.
            (let e : after.first_cluster ≡ c = ground (arith, none_yet) in
              r.first_kept (rw e c_nz) ∙ e);
        first_kept = λ some_first.
            (let e : after.first_cluster ≡ w.first_cluster = ground (arith, some_first) in
              r.first_kept (rw e some_first) ∙ e);
      }
