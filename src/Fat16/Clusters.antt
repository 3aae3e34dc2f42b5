-- ===== src/Fat16/Clusters.antt =====
-- Sectors and clusters of src/fat16.rs on a drive without errors.
use sysrust.Common.{
  ℕ, zero, suc, ◌+◌, ◌-◌, ◌*◌, ◌/◌, ◌%◌, ◌≡◌, ◌≤◌, ◌<◌, ◌⊎◌, inl, inr, true, false, some, ltb,
  Table, store, arith, refl, ap, ◌∙◌, sym, Bool-cases, ltb→lt, ltb-false, store-hit, store-miss,
}
use sysrust.Fat16.{Drive, paste, read_each, write_each}

abbrev pub IsGood : Drive → Type 0
IsGood d = (l : ℕ) → d.bad l ≡ false

-- A sector of a cluster, or none of it.
abbrev pub Outside : (lba n l : ℕ) → Type 0
Outside lba n l = (l < lba) ⊎ (lba + n ≤ l)

-- The byte `j` from the start of sector `lba`.
abbrev pub byte_from : Drive → (lba j : ℕ) → ℕ
byte_from d lba j = d.sectors (lba + j / 512) (j % 512)

pub paste-hit :
    (buf : Table ℕ) (at n j : ℕ) (bytes : Table ℕ)
    → at ≤ j
    → j < at + n
    → paste buf at n bytes j ≡ bytes (j - at)
paste-hit buf at n j bytes lo hi = ground arith

pub paste-miss :
    (buf : Table ℕ) (at n j : ℕ) (bytes : Table ℕ) → Outside at n j → paste buf at n bytes j ≡ buf j
paste-miss buf at n j bytes away = ground arith

pub read_each-IsGood :
    (n i lba : ℕ) (buf : Table ℕ) (d : Drive)
    → IsGood d
    → (buf' : Table ℕ) × (read_each n i lba buf d ≡ some buf')
      × ((j : ℕ) → i * 512 ≤ j → j < (i + n) * 512 → buf' j ≡ byte_from d lba j)
      × ((j : ℕ) → j < i * 512 → buf' j ≡ buf j)
unfolding read_each
read_each-IsGood zero i lba buf d good =
    (buf, refl, λ j lo hi. absurd (omega (arith, lo, hi)), λ j lo. refl)
read_each-IsGood (suc n) i lba buf d good =
    let next = paste buf (i * 512) 512 (d.sectors (lba + i)) in
    let (buf', ends, inside, before) = read_each-IsGood n (i + 1) lba next d good in
    (
      buf',
      rw (read_each, good (lba + i)) ends,
      λ j lo hi. elim (Bool-cases (ltb j ((i + 1) * 512))) [
        | inl now ↦
            let lt = ltb→lt j ((i + 1) * 512) now in
            let e1 : i ≡ j / 512 = omega (arith, lo, lt) in
            let e2 : j - i * 512 ≡ j % 512 = omega (arith, lo, lt) in
            before j lt
            ∙ paste-hit buf (i * 512) 512 j (d.sectors (lba + i)) lo (omega arith)
            ∙ ap (λ k. d.sectors (lba + k) (j - i * 512)) e1
            ∙ ap (d.sectors (lba + j / 512)) e2
        | inr later ↦
            inside j (omega (arith, ltb-false j ((i + 1) * 512) later)) (omega (arith, hi))
      ],
      λ j lo.
          before j (omega (arith, lo))
          ∙ paste-miss buf (i * 512) 512 j (d.sectors (lba + i)) (inl lo),
    )

-- What a run of sectors holds after it is written.
pub record Placed (n i lba : ℕ) (buf : Table ℕ) (d d' : Drive) : Type 0 where
  pub good : IsGood d'
  pub inside : (j : ℕ) → i * 512 ≤ j → j < (i + n) * 512 → byte_from d' lba j ≡ buf j
  pub outside : (l : ℕ) → Outside (lba + i) n l → d'.sectors l ≡ d.sectors l

Outside-tail : (lba n l : ℕ) → Outside lba (suc n) l → Outside (lba + 1) n l
Outside-tail lba n l (inl lo) = inl (omega (arith, lo))
Outside-tail lba n l (inr hi) = inr (omega (arith, hi))

pub write_each-Placed :
    (n i lba : ℕ) (buf : Table ℕ) (d : Drive)
    → IsGood d
    → (d' : Drive) × (write_each n i lba buf d ≡ (true, d')) × Placed n i lba buf d d'
unfolding write_each
write_each-Placed zero i lba buf d good = (
  d,
  refl,
  record {
    good = good;
    inside = λ j lo hi. absurd (omega (arith, lo, hi));
    outside = λ l away. refl;
  },
)
write_each-Placed (suc n) i lba buf d good =
    let d1 = record d { sectors = store d.sectors (lba + i) (λ k. buf (i * 512 + k)) } in
    let (d', ends, p) = write_each-Placed n (i + 1) lba buf d1 good in
    (
      d',
      rw (write_each, good (lba + i)) (rw (good (lba + i)) ends),
      record {
        good = p.good;
        inside = λ j lo hi. elim (Bool-cases (ltb j ((i + 1) * 512))) [
          | inl now ↦
              let lt = ltb→lt j ((i + 1) * 512) now in
              let e1 : i ≡ j / 512 = omega (arith, lo, lt) in
              let e2 : i * 512 + j % 512 ≡ j = omega (arith, lo, lt) in
              ap (λ (t : Table ℕ). t (j % 512)) (p.outside (lba + j / 512) (omega (arith, e1)))
              ∙ ap (λ (t : Table ℕ). t (j % 512))
                  (ap (λ k. d1.sectors (lba + k)) (sym e1)
                    ∙ store-hit d.sectors (lba + i) (λ k. buf (i * 512 + k)))
              ∙ ap buf e2
          | inr later ↦
              p.inside j (omega (arith, ltb-false j ((i + 1) * 512) later)) (omega (arith, hi))
        ];
        outside = λ l away.
            p.outside l (
              let e : lba + (i + 1) ≡ lba + i + 1 = omega arith in
              rw e (Outside-tail (lba + i) n l away))
            ∙ store-miss d.sectors (lba + i) l (λ k. buf (i * 512 + k)) (omega (arith, away));
      },
    )
