-- ===== src/Devfs/Console.antt =====
-- Reading the console in src/devfs.rs: one line at a time.
use sysrust.Common.{
  ℕ, zero, suc, ◌+◌, ◌%◌, ◌^◌, ◌≡◌, ◌≢◌, ◌≤◌, ◌<◌, List, ◌∷◌, ◌==◌, ◌⊎◌, inl, inr, Table, length,
  arith, refl, ap, ◌∙◌, Bool-cases, ==→eq,
}
use sysrust.Ramfs.{bytes_from}
use sysrust.Devfs.{console_read}

-- The bytes typed from `i` on, as the line that a read of `size` bytes gives: `n` of them, none but the
-- last a newline, and the last one is a newline unless the read is full.
pub record IsLine (size i : ℕ) (keys : Table ℕ) (bytes : List ℕ) : Type 0 where
  pub typed : bytes ≡ bytes_from (λ k. keys k % 2 ^ 8) (length bytes) i
  pub fits : length bytes ≤ size
  pub before : (k : ℕ) → k + 1 < length bytes → keys (i + k) % 2 ^ 8 ≢ 10
  pub stops :
      (length bytes ≡ size) ⊎ ((k : ℕ) × (length bytes ≡ k + 1) × (keys (i + k) % 2 ^ 8 ≡ 10))

-- One character more in front.
none_before :
    (i len : ℕ) (keys : Table ℕ)
    → keys i % 2 ^ 8 ≢ 10
    → ((k : ℕ) → k + 1 < len → keys (i + 1 + k) % 2 ^ 8 ≢ 10)
    → (k : ℕ) → k + 1 < suc len
    → keys (i + k) % 2 ^ 8 ≢ 10
none_before i len keys ne rest zero h e = let same : i + 0 ≡ i = omega arith in ne (rw same at e)
none_before i len keys ne rest (suc k) h e =
    let same : i + suc k ≡ i + 1 + k = omega arith in rest k (omega (arith, h)) (rw same at e)

-- A read of the console gives one line of what was typed.
pub console_read-IsLine :
    (size i : ℕ) (keys : Table ℕ) → IsLine size i keys (console_read size i keys)
unfolding console_read bytes_from
console_read-IsLine zero i keys = record {
  typed = refl;
  fits = omega arith;
  before = λ k h. absurd (omega (arith, h));
  stops = inl refl;
}
console_read-IsLine (suc n) i keys = elim (Bool-cases (keys i % 2 ^ 8 == 10)) [
  | inl newline ↦
      rw (console_read, newline)
        (record {
          typed = refl;
          fits = omega arith;
          before = λ k h. absurd (omega (arith, h));
          stops =
              inr (
                0,
                refl,
                ap (λ k. keys k % 2 ^ 8) (omega arith) ∙ ==→eq (keys i % 2 ^ 8) 10 newline,
              );
        })
  | inr other ↦
      let r = console_read-IsLine n (i + 1) keys in
      rw (console_read, other)
        (record {
          typed = ap (λ l. (keys i % 2 ^ 8) ∷ l) r.typed;
          fits = omega (arith, r.fits);
          before =
              none_before i (length (console_read n (i + 1) keys)) keys
                (λ e. ground (arith, e, other)) r.before;
          stops = elim r.stops [
            | inl full ↦ inl (omega (arith, full))
            | inr (k, here, newline) ↦
                inr (suc k, omega (arith, here), ap (λ j. keys j % 2 ^ 8) (omega arith) ∙ newline)
          ];
        })
]
