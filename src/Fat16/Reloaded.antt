-- ===== src/Fat16/Reloaded.antt =====
-- The table of src/fat16.rs as init reads it back, and the chains in it.
use sysrust.Common.{
  ℕ, zero, suc, ◌+◌, ◌*◌, ◌/◌, ◌%◌, ◌^◌, ◌≡◌, ◌≤◌, ◌<◌, inl, inr, true, false, ◌==◌, Table, arith,
  refl, ◌∙◌, Bool-cases,
}
use sysrust.Fat16.{Drive, Bpb, fat_raw, read_each, paste}
use sysrust.Fat16.Mount.{word16, load_fat}
use sysrust.Fat16.Clusters.{byte_from}
use sysrust.Fat16.Reading.{Stored, ended, linked, piece}
use sysrust.Fat16.Found.{Stored_at}
use sysrust.Fat16.Settled.{IsFlushed}

pub load_fat-IsGood :
    (n s base : ℕ) (raw : Table ℕ) (d : Drive) → load_fat n s base raw d ≡ read_each n s base raw d
unfolding load_fat read_each
load_fat-IsGood zero s base raw d = refl
load_fat-IsGood (suc n) s base raw d = elim (Bool-cases (d.bad (base + s))) [
  | inl bad ↦ rw (load_fat, read_each, bad) refl
  | inr good ↦
      rw (load_fat, read_each, good)
        (load_fat-IsGood n (s + 1) base (paste raw (s * 512) 512 (d.sectors (base + s))) d)
]

raw_low : (fat : Table ℕ) (i : ℕ) → fat_raw fat (i * 2) ≡ fat i % 2 ^ 8
raw_low fat i =
    let even : (i * 2 % 2 == 0) ≡ true = ground arith in
    let half : i * 2 / 2 ≡ i = omega arith in rw (even, half) refl

raw_high : (fat : Table ℕ) (i : ℕ) → fat_raw fat (i * 2 + 1) ≡ fat i / 2 ^ 8 % 2 ^ 8
raw_high fat i =
    let odd : ((i * 2 + 1) % 2 == 0) ≡ false = ground arith in
    let half : (i * 2 + 1) / 2 ≡ i = omega arith in rw (odd, half) refl

-- The table that is read back is the cached one, as u16.
pub cached_again :
    (b : Bpb) (fat raw : Table ℕ) (d : Drive)
    → 0 < b.num_fats
    → IsFlushed b fat d
    → ((j : ℕ) → j < b.fat_size_16 * 512 → raw j ≡ byte_from d b.first_fat_sector j)
    → (i : ℕ) → i < b.fat_size_16 * 512 / 2
    → word16 raw (i * 2) ≡ fat i % 2 ^ 16
cached_again b fat raw d some_copy flushed loaded i lt =
    let low : raw (i * 2) ≡ fat i % 2 ^ 8 =
      loaded (i * 2) (omega (arith, lt))
      ∙ flushed (i * 2) some_copy (omega (arith, lt))
      ∙ raw_low fat i in
    let high : raw (i * 2 + 1) ≡ fat i / 2 ^ 8 % 2 ^ 8 =
      loaded (i * 2 + 1) (omega (arith, lt))
      ∙ flushed (i * 2 + 1) some_copy (omega (arith, lt))
      ∙ raw_high fat i in
    omega (arith, low, high)

-- A chain is the same in a table that agrees on the entries there are, as u16.
pub Stored_reloaded :
    (b : Bpb) (fe size : ℕ) (src fat fat' : Table ℕ) (d : Drive) (c off : ℕ)
    → fe ≤ 0xfff8
    → ((i : ℕ) → i < fe → fat' i ≡ fat i % 2 ^ 16)
    → Stored b fe size src fat d c off
    → Stored b fe size src fat' d c off
Stored_reloaded b fe size src fat fat' d c off small same (ended e) = ended e
Stored_reloaded b fe size src fat fat' d c off small same (linked lt two last here (ended e)) =
    linked lt two last here (ended e)
Stored_reloaded b fe size src fat fat' d c off small same
      (linked lt two last here (linked lt' two' last' here' rest)) =
    let more =
      Stored_reloaded b fe size src fat fat' d (fat c) (off + piece b size off) small same
        (linked lt' two' last' here' rest) in
    let next : fat c ≡ fat' c = omega (arith, same c last, last', small) in
    linked lt two last here (
      Stored_at b fe size src fat' d (fat c) (off + piece b size off) (fat' c)
        (off + piece b size off) next refl more)
