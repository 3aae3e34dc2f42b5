-- ===== src/Thread/Round.antt =====
-- The scan of `schedule` in thread.rs: which slot it chooses.
use sysrust.Common.{
  ℕ, ◌+◌, ◌-◌, ◌%◌, ◌≤◌, ◌<◌, ◌≡◌, ◌≢◌, inl, inr, true, false, arith, find_from, find_from-some,
  find_from-none, Table, Option-cases,
}
use sysrust.Thread.{Thread, is_ready, max_threads, pick}

-- The slot `k` places after `old`, going round.
abbrev pub ahead : ℕ → ℕ → ℕ
ahead old k = (old + k) % max_threads

-- How far ahead of `old` a slot lies, going round.
abbrev pub gap : (old slot : ℕ) → ℕ
gap old slot = (slot + max_threads - old) % max_threads

-- `next` is the first ready slot after `old`, `k` places on.
pub record IsNext (t : Table Thread) (old next k : ℕ) : Type 0 where
  pub place : next ≡ ahead old k
  pub positive : 1 ≤ k
  pub within : k ≤ max_threads
  pub is_ready_there : is_ready (t next).state ≡ true
  pub none_before : (j : ℕ) → 1 ≤ j → j < k → is_ready (t (ahead old j)).state ≡ false

module _ (t : Table Thread) (old : ℕ) where
  pub pick-lt : old < max_threads → pick t old < max_threads
  unfolding pick
  pick-lt h = ground arith

  pub pick-IsNext : old < max_threads → pick t old ≢ old → (k : ℕ) × IsNext t old (pick t old) k
  unfolding pick
  pick-IsNext h ne =
      elim (Option-cases (find_from (λ i. is_ready (t (ahead old i)).state) max_threads 1)) [
        | inl e ↦ absurd (ground arith)
        | inr (i, e) ↦
            let f = find_from-some (λ i. is_ready (t (ahead old i)).state) max_threads 1 i e in
            (
              i,
              rw (e, pick)
                  (record {
                    place = ground arith;
                    positive = f.0;
                    within = omega arith;
                    is_ready_there = f.2;
                    none_before = f.3;
                  }),
            )
      ]

  -- When the scan stays, no other slot is ready.
  pub pick_stays :
      old < max_threads
      → pick t old ≡ old
      → (slot : ℕ) → slot < max_threads
      → slot ≢ old
      → is_ready (t slot).state ≡ false
  unfolding pick
  pick_stays h e slot a ne =
      elim (Option-cases (find_from (λ i. is_ready (t (ahead old i)).state) max_threads 1)) [
        | inl o ↦
            let f = find_from-none (λ i. is_ready (t (ahead old i)).state) max_threads 1 o in
            let there : ahead old (gap old slot) ≡ slot = omega arith in
            rw there at (f (gap old slot) (omega arith) (omega arith))
        | inr (i, o) ↦
            let f = find_from-some (λ i. is_ready (t (ahead old i)).state) max_threads 1 i o in
            let back : ahead old i ≡ old = ground arith in
            let whole : i ≡ max_threads = omega arith in
            let there : ahead old (gap old slot) ≡ slot = omega arith in
            rw there at (f.3 (gap old slot) (omega arith) (omega arith))
      ]
