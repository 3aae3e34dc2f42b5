-- ===== src/Fat16/Entries.antt =====
-- The root directory of src/fat16.rs on a drive without errors: the first hit, and one entry written.
use sysrust.Common.{
  ℕ, zero, suc, ◌+◌, ◌*◌, ◌/◌, ◌%◌, ◌≡◌, ◌≢◌, ◌≤◌, ◌<◌, inl, inr, true, false, some, none, ◌==◌,
  ltb, ◌||◌, if◌then◌else◌, Table, store, arith, refl, ap, ◌∙◌, sym, Bool-cases, fun_ext, ltb→lt,
  ltb-false, store-miss,
}
use sysrust.Fat16.{Drive, Bpb, paste}
use sysrust.Fat16.Directory.{
  entry_at, read_root_entry, write_root_entry, hits, find_entry, find_free,
}
use sysrust.Fat16.Clusters.{IsGood}

abbrev pub root_entry : Bpb → Drive → (index : ℕ) → Table ℕ
root_entry b d i = entry_at i (d.sectors (b.first_root_sector + i / 16))

pub read_root_entry-IsGood :
    (b : Bpb) (i : ℕ) (d : Drive) → IsGood d → read_root_entry b i d ≡ some (root_entry b d i)
read_root_entry-IsGood b i d good = rw (read_root_entry, good (b.first_root_sector + i / 16)) refl

-- An entry that find_root_entry goes past.
abbrev pub Passes : (fat_name e : Table ℕ) → Type 0
Passes fat_name e = (e 0 ≢ 0) × (hits fat_name e ≡ false)

abbrev pub AllPass : Bpb → Drive → (fat_name : Table ℕ) → (i m : ℕ) → Type 0
AllPass b d fat_name i m = (k : ℕ) → i ≤ k → k < m → Passes fat_name (root_entry b d k)

-- An entry that find_root_entry stops at.
abbrev pub Hit : (fat_name e : Table ℕ) → Type 0
Hit fat_name e = (e 0 ≢ 0) × (hits fat_name e ≡ true)

module _ (b : Bpb) (d : Drive) (good : IsGood d) (fat_name : Table ℕ) where
  AllPass-cons :
      (i m : ℕ)
      → Passes fat_name (root_entry b d i)
      → AllPass b d fat_name (i + 1) m
      → AllPass b d fat_name i m
  AllPass-cons i m here later k lo hi = elim (Bool-cases (ltb i k)) [
    | inl lt ↦ later k (omega (arith, ltb→lt i k lt)) hi
    | inr ge ↦ let e : k ≡ i = omega (arith, ltb-false i k ge, lo) in rw e here
  ]

  find_entry_step :
      (n i : ℕ)
      → find_entry (suc n) i b fat_name d ≡ (
          if root_entry b d i 0 == 0
          then none
          else if hits fat_name (root_entry b d i)
          then some (i, root_entry b d i)
          else find_entry n (i + 1) b fat_name d)
  unfolding find_entry
  find_entry_step n i = rw (find_entry, good (b.first_root_sector + i / 16)) refl

  pub find_free_step :
      (n i : ℕ)
      → find_free (suc n) i b d ≡ (
          if (root_entry b d i 0 == 0) || (root_entry b d i 0 == 0xe5)
          then some i
          else find_free n (i + 1) b d)
  unfolding find_free
  find_free_step n i = rw (find_free, good (b.first_root_sector + i / 16)) refl

  pub find_entry-first :
      (n i m : ℕ)
      → i ≤ m
      → m < i + n
      → AllPass b d fat_name i m
      → Hit fat_name (root_entry b d m)
      → find_entry n i b fat_name d ≡ some (m, root_entry b d m)
  find_entry-first zero i m lo hi pass hit = absurd (omega (arith, lo, hi))
  find_entry-first (suc n) i m lo hi pass hit = elim (Bool-cases (ltb i m)) [
    | inl lt ↦
        let p = pass i (omega arith) (ltb→lt i m lt) in
        let z : (root_entry b d i 0 == 0) ≡ false = ground (arith, p.0) in
        find_entry_step n i
        ∙ rw (z, p.1)
            (find_entry-first n (i + 1) m (omega (arith, ltb→lt i m lt)) (omega (arith, hi))
              (λ k a c. pass k (omega (arith, a)) c) hit)
    | inr ge ↦
        let e : i ≡ m = omega (arith, ltb-false i m ge, lo) in
        let z : (root_entry b d m 0 == 0) ≡ false = ground (arith, hit.0) in
        find_entry_step n i ∙ rw e (rw (z, hit.1) refl)
  ]

  Hit-at : (i m : ℕ) → i ≡ m → Hit fat_name (root_entry b d i) → Hit fat_name (root_entry b d m)
  Hit-at i m e hit = let r = hit in rw e at r

  pub find_entry-some :
      (n i m : ℕ) (e : Table ℕ)
      → find_entry n i b fat_name d ≡ some (m, e)
      → (i ≤ m)
        × (m < i + n)
        × (e ≡ root_entry b d m)
        × Hit fat_name (root_entry b d m)
        × AllPass b d fat_name i m
  unfolding find_entry
  find_entry-some zero i m e found = absurd (cc)
  find_entry-some (suc n) i m e found =
      let step = sym (find_entry_step n i) ∙ found in
      elim (Bool-cases (root_entry b d i 0 == 0)) [
        | inl z ↦ absurd (let gone = rw z at step in cc)
        | inr z ↦ elim (Bool-cases (hits fat_name (root_entry b d i))) [
          | inl h ↦
              let here = rw (z, h) at step in
              let at : i ≡ m = cc in
              let same : root_entry b d i ≡ e = cc in
              let nz : root_entry b d i 0 ≢ 0 = ground arith in
              (
                omega (arith, at),
                omega (arith, at),
                sym same ∙ ap (root_entry b d) at,
                Hit-at i m at (nz, h),
                λ k lo hi. absurd (omega (arith, lo, hi, at)),
              )
          | inr h ↦
              let (lo, hi, same, hit, pass) = find_entry-some n (i + 1) m e (rw (z, h) at step) in
              (
                omega (arith, lo),
                omega (arith, hi),
                same,
                hit,
                AllPass-cons i m (ground arith, h) pass,
              )
        ]
      ]

  -- The free entry that find_free_root_entry takes, for a name that is not there.
  pub find_free-some :
      (n i m : ℕ)
      → find_entry n i b fat_name d ≡ none
      → find_free n i b d ≡ some m
      → (i ≤ m) × (m < i + n) × AllPass b d fat_name i m
  unfolding find_entry find_free
  find_free-some zero i m missing found = absurd (cc)
  find_free-some (suc n) i m missing found =
      let gone = sym (find_entry_step n i) ∙ missing in
      let step = sym (find_free_step n i) ∙ found in
      elim (Bool-cases ((root_entry b d i 0 == 0) || (root_entry b d i 0 == 0xe5))) [
        | inl z ↦
            let here = rw z at step in
            let at : i ≡ m = cc in
            (omega (arith, at), omega (arith, at), λ k lo hi. absurd (omega (arith, lo, hi, at)))
        | inr z ↦
            let nz : (root_entry b d i 0 == 0) ≡ false = ground arith in
            elim (Bool-cases (hits fat_name (root_entry b d i))) [
              | inl h ↦ absurd (let more = rw (nz, h) at gone in cc)
              | inr h ↦
                  let (lo, hi, pass) =
                    find_free-some n (i + 1) m (rw (nz, h) at gone) (rw z at step) in
                  (omega (arith, lo), omega (arith, hi), AllPass-cons i m (ground arith, h) pass)
            ]
      ]

pub record EntryPlaced (b : Bpb) (i : ℕ) (e : Table ℕ) (d d' : Drive) : Type 0 where
  pub good : IsGood d'
  pub sectors : (l : ℕ) → l ≢ b.first_root_sector + i / 16 → d'.sectors l ≡ d.sectors l
  pub here : (k : ℕ) → k < 32 → root_entry b d' i k ≡ e k
  pub others : (k : ℕ) → k ≢ i → root_entry b d' k ≡ root_entry b d k

pub write_root_entry-EntryPlaced :
    (b : Bpb) (i : ℕ) (e : Table ℕ) (d : Drive)
    → IsGood d
    → (d' : Drive) × (write_root_entry b i e d ≡ (true, d')) × EntryPlaced b i e d d'
write_root_entry-EntryPlaced b i e d good =
    let l = b.first_root_sector + i / 16 in
    let sector = λ (k : ℕ). paste (d.sectors l) (i % 16 * 32) 32 e (0 + k) in
    (
      record d { sectors = store d.sectors l sector },
      rw (write_root_entry, good l) (rw (good l) refl),
      record {
        good = good;
        sectors = λ k apart. store-miss d.sectors l k sector apart;
        here = λ k lt. ground (arith, lt);
        others = λ k apart. fun_ext (λ j. ground (arith, apart));
      },
    )
