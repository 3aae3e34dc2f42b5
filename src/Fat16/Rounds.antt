-- ===== src/Fat16/Rounds.antt =====
-- The loop of write_file in src/fat16.rs ends: with the whole file in a chain, or on a full table.
use sysrust.Common.{
  ℕ, zero, suc, ◌+◌, ◌-◌, ◌≡◌, ◌≢◌, ◌≤◌, ◌<◌, ◌⊎◌, inl, inr, Bool, true, false, Option, some, ◌==◌,
  ltb, Table, store, arith, refl, ap, ◌∙◌, Bool-cases, ltb→lt, ltb-false,
}
use sysrust.Fat16.{Drive, Bpb, write_cluster, cluster_lba, fat_alloc}
use sysrust.Fat16.Files.{
  Writer, write_size, cluster_data, advance, after_write, after_alloc, write_clusters,
}
use sysrust.Fat16.Clusters.{IsGood, Placed, write_each-Placed}
use sysrust.Fat16.Reading.{ended, piece}
use sysrust.Fat16.Writing.{
  IsSane, IsFull, fat_alloc_cases, Written, advance-Written, write_size-piece, chained_self,
}

abbrev pub Ended :
    Bpb → (fat_entries size : ℕ) → (src : Table ℕ) → Writer → Option (Bool × Writer) → Type 0
Ended b fe size src w result =
    ((w' : Writer) × (result ≡ some (true, w')) × Written b fe size src w w')
    ⊎ ((w' : Writer) × (result ≡ some (false, w')) × IsFull fe w'.fat)

module _ (b : Bpb) (fe size : ℕ) (src : Table ℕ) where
  done-Written : (w : Writer) → IsGood w.drive → size ≡ w.offset → Written b fe size src w w
  done-Written w good e = record {
    good = good;
    kept_fat = λ i _ _. refl;
    kept_sectors = λ l _. refl;
    head = 0;
    chain = ended e;
    linked_to = λ _ lt. absurd (omega (arith, lt, e));
    first = λ _ lt. absurd (omega (arith, lt, e));
    first_kept = λ _. refl;
  }

  round_stops :
      (fuel : ℕ) (w : Writer)
      → ltb w.offset size ≡ false
      → write_clusters (suc fuel) b fe src size w ≡ some (true, w)
  unfolding write_clusters
  round_stops fuel w stop = rw (write_clusters, stop) refl

  round_full :
      (fuel : ℕ) (w : Writer)
      → ltb w.offset size ≡ true
      → fat_alloc fe w.fat ≡ (0, w.fat)
      → write_clusters (suc fuel) b fe src size w ≡ some (false, w)
  unfolding write_clusters
  round_full fuel w more full = rw (write_clusters, more) (rw full refl)

  round_goes :
      (fuel c : ℕ) (w : Writer) (d : Drive)
      → ltb w.offset size ≡ true
      → 2 ≤ c
      → fat_alloc fe w.fat ≡ (c, store w.fat c 0xffff)
      → write_cluster b c (cluster_data src w.offset (write_size b size w.offset)) w.drive
        ≡ (true, d)
      → write_clusters (suc fuel) b fe src size w
        ≡ write_clusters fuel b fe src size (advance b src size c (store w.fat c 0xffff) d w)
  unfolding write_clusters
  round_goes fuel c w d more two taken wrote =
      let nz : (c == 0) ≡ false = ground (arith, two) in
      let rest = λ (w' : Writer). write_clusters fuel b fe src size w' in
      rw (write_clusters, more)
        (ap (after_alloc b src size w rest) taken
          ∙ (rw nz refl)
          ∙ ap (after_write b src size c (store w.fat c 0xffff) w rest) wrote)

  write_cluster-Placed :
      (c : ℕ) (bytes : Table ℕ) (d : Drive)
      → IsGood d
      → 2 ≤ c
      → (d' : Drive) × (write_cluster b c bytes d ≡ (true, d'))
        × Placed b.sectors_per_cluster 0 (cluster_lba b c) bytes d d'
  write_cluster-Placed c bytes d good two =
      let (d', ends, p) =
        write_each-Placed b.sectors_per_cluster 0 (cluster_lba b c) bytes d good in
      let e : ltb c 2 ≡ false = ground (arith, two) in (d', rw e ends, p)

  pub write_clusters-Ended :
      (fuel : ℕ) (w : Writer)
      → IsSane b fe size
      → IsGood w.drive
      → (w.prev_cluster ≢ 0 → w.fat w.prev_cluster ≢ 0)
      → w.offset ≤ size
      → size - w.offset < fuel
      → Ended b fe size src w (write_clusters fuel b fe src size w)
  write_clusters-Ended zero w sane good used le enough = absurd (omega (arith, enough))
  write_clusters-Ended (suc fuel) w sane good used le enough =
      elim (Bool-cases (ltb w.offset size)) [
        | inr stop ↦ inl (
          w,
          round_stops fuel w stop,
          done-Written w good (omega (arith, ltb-false w.offset size stop, le)),
        )
        | inl more ↦ elim (fat_alloc_cases fe w.fat sane.small) [
          | inl (none_free, full) ↦ inr (w, round_full fuel w more none_free, full)
          | inr (c, taken, f) ↦
              let (d, wrote, p) =
                write_cluster-Placed c (cluster_data src w.offset (write_size b size w.offset))
                  w.drive good f.two in
              let lt = ltb→lt w.offset size more in
              let w1 = advance b src size c (store w.fat c 0xffff) d w in
              let goes = round_goes fuel c w d more f.two taken wrote in
              let e = write_size-piece b fe size src sane w c d lt f used p in
              let n_pos : 0 < piece b size w.offset = ground (arith, lt, sane.positive) in
              let n_le : w.offset + piece b size w.offset ≤ size = ground (arith, lt) in
              elim (write_clusters-Ended fuel w1 sane p.good
                (λ _. chained_self w.fat w.prev_cluster c f.two f.free used)
                (omega (arith, e, n_le)) (omega (arith, e, n_pos, enough))) [
                  | inl (w', runs, r) ↦
                      inl
                        (w', goes ∙ runs, advance-Written b fe size src sane w c d lt f used p w' r)
                  | inr (w', runs, full) ↦ inr (w', goes ∙ runs, full)
                ]
        ]
      ]
