-- ===== src/Fat16/Chains.antt =====
-- The loops of src/fat16.rs over the table itself: freeing a chain, and writing the copies.
use sysrust.Common.{
  ℕ, zero, suc, ◌+◌, ◌*◌, ◌/◌, ◌%◌, ◌≡◌, ◌≢◌, ◌<◌, inl, inr, true, false, not, some, ◌==◌, ltb, leb,
  ◌&&◌, Table, store, arith, refl, ap, ◌∙◌, Bool-cases, count_from, count_from_gain,
}
use sysrust.Fat16.{Drive, fat_next, flush_each}
use sysrust.Fat16.Files.{free_chain}
use sysrust.Fat16.Clusters.{IsGood, Outside, byte_from, write_each-Placed}

-- The number of entries that are not free.
abbrev pub used : Table ℕ → ℕ
used fat = count_from (λ i. not (fat i == 0)) 0xfff8 0

free_chain_stop :
    (fuel fe c : ℕ) (fat : Table ℕ)
    → (leb 2 c && ltb c 0xfff8) ≡ false
    → free_chain (suc fuel) fe c fat ≡ some fat
unfolding free_chain
free_chain_stop fuel fe c fat stop = rw (free_chain, stop) refl

free_chain_go :
    (fuel fe c : ℕ) (fat : Table ℕ)
    → (leb 2 c && ltb c 0xfff8) ≡ true
    → free_chain (suc fuel) fe c fat ≡ free_chain fuel fe (fat_next fe fat c) (store fat c 0)
unfolding free_chain
free_chain_go fuel fe c fat go = rw (free_chain, go) refl

free_one : (fat : Table ℕ) (c : ℕ) → c < 0xfff8 → fat c ≢ 0 → used fat ≡ used (store fat c 0) + 1
free_one fat c lt nz =
    count_from_gain (λ i. not (store fat c 0 i == 0)) (λ i. not (fat i == 0)) 0xfff8 0 c
      (omega arith) (omega (arith, lt)) (ground arith) (ground arith)
      (λ k apart. ground (arith, apart))

-- Whatever the chain is, a loop too, freeing it ends: each round but the last frees an entry.
pub free_chain_ends :
    (fuel fe c : ℕ) (fat : Table ℕ)
    → used fat + 1 < fuel
    → (fat' : Table ℕ) × (free_chain fuel fe c fat ≡ some fat')
free_chain_ends zero fe c fat enough = absurd (omega (arith, enough))
free_chain_ends (suc zero) fe c fat enough = absurd (omega (arith, enough))
free_chain_ends (suc (suc fuel)) fe c fat enough = elim (Bool-cases (leb 2 c && ltb c 0xfff8)) [
  | inr stop ↦ (fat, free_chain_stop (suc fuel) fe c fat stop)
  | inl go ↦ elim (Bool-cases (fat c == 0)) [
    | inl z ↦
        let stop : (leb 2 (fat_next fe fat c) && ltb (fat_next fe fat c) 0xfff8) ≡ false =
          ground arith in
        (
          store fat c 0,
          free_chain_go (suc fuel) fe c fat go
              ∙ free_chain_stop fuel fe (fat_next fe fat c) (store fat c 0) stop,
        )
    | inr nz ↦
        let fewer = free_one fat c (ground arith) (ground arith) in
        let (fat', ends) =
          free_chain_ends (suc fuel) fe (fat_next fe fat c) (store fat c 0)
            (omega (arith, fewer, enough)) in
        (fat', free_chain_go (suc fuel) fe c fat go ∙ ends)
  ]
]

tail_away :
    (n base sectors l : ℕ)
    → Outside base (suc n * sectors) l
    → Outside (base + sectors) (n * sectors) l
tail_away n base sectors l (inl lo) = inl (omega (arith, lo))
tail_away n base sectors l (inr hi) = inr (omega (arith, hi))

head_away : (n base sectors l : ℕ) → Outside base (suc n * sectors) l → Outside base sectors l
head_away n base sectors l (inl lo) = inl lo
head_away n base sectors l (inr hi) = inr (omega (arith, hi))

-- Every copy is written, and nothing outside the copies; the first holds the bytes.
pub flush_each-IsGood :
    (n base sectors : ℕ) (raw : Table ℕ) (d : Drive)
    → IsGood d
    → (d' : Drive) × (flush_each n base sectors raw d ≡ (true, d'))
      × IsGood d'
      × ((l : ℕ) → Outside base (n * sectors) l → d'.sectors l ≡ d.sectors l)
      × ((j : ℕ) → 0 < n → j < sectors * 512 → byte_from d' base j ≡ raw j)
unfolding flush_each
flush_each-IsGood zero base sectors raw d good =
    (d, refl, good, λ l away. refl, λ j none_left. absurd (omega (arith, none_left)))
flush_each-IsGood (suc n) base sectors raw d good =
    let (d1, wrote, p) = write_each-Placed sectors 0 base raw d good in
    let (d', ends, good', kept, first) =
      flush_each-IsGood n (base + sectors) sectors raw d1 p.good in
    let e : base + 0 ≡ base = omega arith in
    (
      d',
      rw (flush_each, wrote) (rw wrote ends),
      good',
      λ l away.
          kept l (tail_away n base sectors l away)
          ∙ p.outside l (rw e (head_away n base sectors l away)),
      λ j _ small.
          ap (λ (t : Table ℕ). t (j % 512)) (kept (base + j / 512) (inl (omega (arith, small))))
          ∙ p.inside j (omega arith) (omega (arith, small)),
    )
