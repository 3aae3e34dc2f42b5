-- ===== src/Ramfs/Growth.antt =====
-- The doubling loop of `ramfs_write` in src/ramfs.rs: when it ends, and when it never does.
use sysrust.Common.{
  ℕ, zero, suc, ◌+◌, ◌-◌, ◌*◌, ◌%◌, ◌^◌, ◌≡◌, ◌≤◌, ◌<◌, true, false, some, none, ltb, arith, refl,
  ap, ◌∙◌, Bool-cases, inl, inr, ◌⊎◌, ltb-false, ltb→lt, ◌≢◌,
}
use sysrust.Ramfs.{grow}

abbrev pub pow2 : ℕ → ℕ
pow2 zero = 1
pow2 (suc k) = 2 * pow2 k

pub pow2-le : (d k m : ℕ) → d + k ≡ m → pow2 k ≤ pow2 m
pow2-le zero k m e = let same : k ≡ m = omega (arith, e) in rw same (omega arith)
pow2-le (suc d) k m e = let step = pow2-le d (suc k) m (omega (arith, e)) in omega (arith, step)

-- The step of the loop, in u32 arithmetic, below the last power.
double : (k : ℕ) → k < 31 → pow2 k * 2 % 2 ^ 32 ≡ pow2 (suc k)
double k h = let bound = pow2-le (30 - k) (suc k) 31 (omega (arith, h)) in omega (arith, bound)

grow_done : (fuel c n : ℕ) → ltb c n ≡ false → grow (suc fuel) c n ≡ some c
unfolding grow
grow_done fuel c n h = rw (grow, h) refl

grow_again : (fuel c n : ℕ) → ltb c n ≡ true → grow (suc fuel) c n ≡ grow fuel (c * 2 % 2 ^ 32) n
unfolding grow
grow_again fuel c n h = rw (grow, h) refl

-- 32 rounds, less those already done, are enough up to 2^31.
pub grow_ends :
    (fuel k n : ℕ)
    → k ≤ 31
    → 32 ≤ fuel + k
    → n ≤ 2 ^ 31
    → (m : ℕ) × (k ≤ m) × (m ≤ 31) × (grow fuel (pow2 k) n ≡ some (pow2 m)) × (n ≤ pow2 m)
grow_ends zero k n hk enough h = absurd (omega (arith, hk, enough))
grow_ends (suc fuel) k n hk enough h = elim (Bool-cases (ltb (pow2 k) n)) [
  | inr large ↦ (k, omega arith, hk, grow_done fuel (pow2 k) n large, ltb-false (pow2 k) n large)
  | inl small ↦
      let last : k ≢ 31 = λ e. ground (arith, ltb→lt (pow2 k) n small, ap pow2 e, h) in
      let (m, more, hm, ends, fits) =
        grow_ends fuel (suc k) n (omega (arith, hk, last)) (omega (arith, enough)) h in
      (
        m,
        omega (arith, more),
        hm,
        grow_again fuel (pow2 k) n small
            ∙ ap (λ c. grow fuel c n) (double k (omega (arith, hk, last)))
            ∙ ends,
        fits,
      )
]

-- The capacities that doubling from a power of two goes through, 0 after the last.
abbrev pub IsCapacity : ℕ → Type 0
IsCapacity c = (c ≡ 0) ⊎ ((k : ℕ) × (k ≤ 31) × (c ≡ pow2 k))

capacity-le : (c : ℕ) → IsCapacity c → c ≤ 2 ^ 31
capacity-le c (inl e) = omega (arith, e)
capacity-le c (inr (k, hk, e)) = omega (arith, e, pow2-le (31 - k) k 31 (omega (arith, hk)))

doubled-IsCapacity : (c : ℕ) → IsCapacity c → IsCapacity (c * 2 % 2 ^ 32)
doubled-IsCapacity c (inl e) = inl (omega (arith, e))
doubled-IsCapacity c (inr (k, hk, e)) = elim (Bool-cases (ltb k 31)) [
  | inl below ↦ inr (suc k, ltb→lt k 31 below, rw e (double k (ltb→lt k 31 below)))
  | inr last ↦
      let top : k ≡ 31 = omega (arith, hk, ltb-false k 31 last) in inl (rw (e, top) (omega arith))
]

-- From 0 or a power of two up to 2^31, the loop that doubles the capacity never reaches a size
-- above 2^31: on any fuel it runs out of it.
pub grow_never_ends : (fuel c n : ℕ) → IsCapacity c → 2 ^ 31 < n → grow fuel c n ≡ none
unfolding grow
grow_never_ends zero c n is_cap h = refl
grow_never_ends (suc fuel) c n is_cap h =
    let small : ltb c n ≡ true = ground (arith, capacity-le c is_cap) in
    grow_again fuel c n small
    ∙ grow_never_ends fuel (c * 2 % 2 ^ 32) n (doubled-IsCapacity c is_cap) h
