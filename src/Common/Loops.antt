-- ===== src/Common/Loops.antt =====
-- Counted loops: `for i in lo..lo + n`, with and without an early return.
use Prim.Native.Nat.{ℕ, zero, suc, ◌+◌, ◌≤◌, ◌<◌}
use mathlib.Core.Path.{◌≡◌, ap, refl}
use mathlib.Core.Logic.{◌≢◌, ◌↔◌, inl, inr}
use mathlib.Core.Bool.{Bool, true, false, not}
use mathlib.Core.Option.{Option, none, some}
use native.Mathlib.Omega.{arith}
use native.Mathlib.Decide.{ℕ_discrete}
use sysrust.Common.Tests.{if◌then◌else◌, Bool-cases, Option-cases}

-- for i in lo..lo + n { if p(i) { return Some(i) } } None
unfoldable pub find_from : (p : ℕ → Bool) → (n lo : ℕ) → Option ℕ
find_from p zero lo = none
find_from p (suc n) lo = let rest = find_from p n (lo + 1) in if p lo then some lo else rest

-- The number of indices of `lo..lo + n` that pass the test.
unfoldable pub count_from : (p : ℕ → Bool) → (n lo : ℕ) → ℕ
count_from p zero lo = 0
count_from p (suc n) lo = (if p lo then 1 else 0) + count_from p n (lo + 1)

-- for i in lo..lo + n { s = body(i, s) }
unfoldable pub for_range {ℓ} : {S : Type ℓ} → (ℕ → S → S) → (n lo : ℕ) → S → S
for_range body zero lo s = s
for_range body (suc n) lo s = for_range body n (lo + 1) (body lo s)

-- What a loop with an early return at the first index that passes says of the indices.
abbrev pub FirstIn : (ℕ → Bool) → ℕ → ℕ → ℕ → Type 0
FirstIn p n lo j = (lo ≤ j) × (j < lo + n) × (p j ≡ true) × ((k : ℕ) → lo ≤ k → k < j → p k ≡ false)

abbrev pub NoneIn : (ℕ → Bool) → ℕ → ℕ → Type 0
NoneIn p n lo = (k : ℕ) → lo ≤ k → k < lo + n → p k ≡ false

module _ (p : ℕ → Bool) where
  pub find_from-some : (n lo j : ℕ) → find_from p n lo ≡ some j → FirstIn p n lo j
  unfolding find_from
  find_from-some zero lo j h = absurd (cc)
  find_from-some (suc n) lo j h = elim (Bool-cases (p lo)) [
    | inl t ↦ (ground arith, ground arith, ground arith, λ k a b. absurd (ground arith))
    | inr f ↦
        let rest = find_from-some n (lo + 1) j (rw (find_from, f) at h) in
        (omega arith, omega arith, rest.2, λ k a b. ground (arith, rest.3 k))
  ]

  pub find_from-none : (n lo : ℕ) → find_from p n lo ≡ none → NoneIn p n lo
  unfolding find_from
  find_from-none zero lo h k a b = absurd (omega arith)
  find_from-none (suc n) lo h k a b = elim (Bool-cases (p lo)) [
    | inl t ↦ absurd (ground arith)
    | inr f ↦ ground (arith, find_from-none n (lo + 1) (rw (find_from, f) at h) k)
  ]

  -- The loop finds an index whenever one passes.
  pub find_from_hit :
      (n lo j : ℕ) → lo ≤ j → j < lo + n → p j ≡ true → (r : ℕ) × (find_from p n lo ≡ some r)
  find_from_hit n lo j a b t = elim (Option-cases (find_from p n lo)) [
    | inl e ↦ absurd (ground (arith, find_from-none n lo e j))
    | inr (r, e) ↦ (r, e)
  ]

  pub find_from_first : (n lo j : ℕ) → FirstIn p n lo j → find_from p n lo ≡ some j
  find_from_first n lo j f =
      let (r, e) = find_from_hit n lo j f.0 f.1 f.2 in
      let g = find_from-some n lo r e in
      let same : r ≡ j = ground (arith, f.3 r, g.3 j) in rw e (ap some same)

module _ (p q : ℕ → Bool) where
  pub find_from_ext :
      (n lo : ℕ) → ((k : ℕ) → lo ≤ k → k < lo + n → p k ≡ q k) → find_from p n lo ≡ find_from q n lo
  unfolding find_from
  find_from_ext zero lo same = refl
  find_from_ext (suc n) lo same = rw (
    same lo (omega arith) (omega arith),
    find_from_ext n (lo + 1) (λ k a b. same k (omega arith) (omega arith)),
  )

  -- Two tests that agree on the indices of the loop.
  pub count_from_ext :
      (n lo : ℕ)
      → ((k : ℕ) → lo ≤ k → k < lo + n → p k ≡ q k)
      → count_from p n lo ≡ count_from q n lo
  unfolding count_from
  count_from_ext zero lo same = omega arith
  count_from_ext (suc n) lo same = rw (
    same lo (omega arith) (omega arith),
    count_from_ext n (lo + 1) (λ k a b. same k (omega arith) (omega arith)),
  )

  -- Two tests that agree at every index but `j`, which `q` alone passes.
  pub count_from_gain :
      (n lo j : ℕ)
      → lo ≤ j
      → j < lo + n
      → p j ≡ false
      → q j ≡ true
      → ((k : ℕ) → k ≢ j → p k ≡ q k)
      → count_from q n lo ≡ count_from p n lo + 1
  unfolding count_from
  count_from_gain zero lo j a b pj qj same = absurd (omega arith)
  count_from_gain (suc n) lo j a b pj qj same = elim (ℕ_discrete lo j) [
    | yes e ↦
        let rest = count_from_ext n (lo + 1) λ k c d. same k (omega arith) in
        rw (e, pj, qj, ← e, rest) (omega arith)
    | no ne ↦
        let rest = count_from_gain n (lo + 1) j (omega arith) (omega arith) pj qj same in
        rw (same lo ne) (omega arith)
  ]

-- What holds at the first index, and is carried over each round, holds at the index after the last.
pub for_range_inv {ℓ κ} :
    {S : Type ℓ} (body : ℕ → S → S) (Inv : ℕ → S → Type κ)
    → (count first after : ℕ) → first + count ≡ after
    → (s : S) → Inv first s
    → ((i : ℕ) (t : S) → Inv i t → Inv (i + 1) (body i t))
    → Inv after (for_range body count first s)
unfolding for_range
for_range_inv body Inv zero first after reaches s start round =
    let same : first ≡ after = omega arith in rw (← same) start
for_range_inv body Inv (suc count) first after reaches s start round =
    for_range_inv body Inv count (first + 1) after (omega arith) (body first s)
      (round first s start) round

module _ (p : ℕ → Bool) where
  pub count_from-le : (n lo : ℕ) → count_from p n lo ≤ n
  unfolding count_from
  count_from-le zero lo = omega arith
  count_from-le (suc n) lo = ground (arith, count_from-le n (lo + 1))

  -- Every index passes exactly when the count is the number of indices.
  pub count_from_full : (n lo : ℕ) → find_from (λ i. not (p i)) n lo ≡ none ↔ count_from p n lo ≡ n
  unfolding count_from find_from
  count_from_full zero lo = (λ h. refl, λ h. refl)
  count_from_full (suc n) lo = elim (Bool-cases (p lo)) [
    | inl t ↦
        let rest = count_from_full n (lo + 1) in
        rw t (λ h. omega (arith, rest.0 h), λ h. rest.1 (omega arith))
    | inr f ↦ rw f (λ h. absurd (cc), λ h. absurd (omega (arith, count_from-le n (lo + 1))))
  ]

  pub count_from_zero : (n lo : ℕ) → (count_from p n lo ≡ 0) ↔ NoneIn p n lo
  unfolding count_from
  count_from_zero zero lo = (λ h k a b. absurd (omega arith), λ h. refl)
  count_from_zero (suc n) lo =
      let rest = count_from_zero n (lo + 1) in
      elim (Bool-cases (p lo)) [
        | inl t ↦ (λ h. absurd (ground arith), λ h. absurd (ground (arith, h lo)))
        | inr f ↦ rw f (
          λ h k a b. ground (arith, rest.0 (omega arith) k),
          λ h. omega (arith, rest.1 (λ k a b. h k (omega arith) (omega arith))),
        )
      ]

  pub count_from-add :
      (m n lo : ℕ) → count_from p (m + n) lo ≡ count_from p m lo + count_from p n (lo + m)
  unfolding count_from
  count_from-add zero n lo =
      let a : 0 + n ≡ n = omega arith in
      let b : lo + 0 ≡ lo = omega arith in rw (a, b) (omega arith)
  count_from-add (suc m) n lo =
      let a : suc m + n ≡ suc (m + n) = omega arith in
      let b : lo + suc m ≡ lo + 1 + m = omega arith in
      rw (a, b) (omega (arith, count_from-add m n (lo + 1)))

  pub count_from_shift :
      (n lo off : ℕ) → count_from (λ k. p (off + k)) n lo ≡ count_from p n (off + lo)
  unfolding count_from
  count_from_shift zero lo off = refl
  count_from_shift (suc n) lo off =
      let a : off + (lo + 1) ≡ off + lo + 1 = omega arith in
      omega (arith, count_from_shift n (lo + 1) off, ap (count_from p n) a)

  pub count_from-not : (n lo : ℕ) → count_from p n lo + count_from (λ k. not (p k)) n lo ≡ n
  unfolding count_from
  count_from-not zero lo = omega arith
  count_from-not (suc n) lo = ground (arith, count_from-not n (lo + 1))
