-- ===== src/Rc/Emit/Buffer.antt =====
-- The code buffer of src/rc/emit.rs: what a sequence of bytes does to it.
use sysrust.Common.{
  ℕ, ◌+◌, ◌≡◌, ◌≤◌, ◌<◌, true, List, [], ◌∷◌, ltb, store, length, arith, refl, ap, ◌∙◌, Bool-cases,
  inl, inr,
}
use sysrust.Ramfs.{bytes_from}
use sysrust.Rc.Emit.{Emitter, bytes, cc_code_max}

-- Nothing before the code or outside the buffer is written; bytes that all fit stand behind the
-- code, and the flag is raised when one does not.
pub record Emitted (bs : List ℕ) (s s' : Emitter) : Type 0 where
  pub bounded : s'.code_pos ≤ cc_code_max
  pub before : (i : ℕ) → i < s.code_pos → s'.code_buf i ≡ s.code_buf i
  pub outside : (i : ℕ) → cc_code_max ≤ i → s'.code_buf i ≡ s.code_buf i
  pub at : s.code_pos + length bs ≤ cc_code_max → s'.code_pos ≡ s.code_pos + length bs
  pub code :
      s.code_pos + length bs ≤ cc_code_max → bytes_from s'.code_buf (length bs) s.code_pos ≡ bs
  pub fits : s.code_pos + length bs ≤ cc_code_max → s'.emit_overflow_flag ≡ s.emit_overflow_flag
  pub overflows : cc_code_max < s.code_pos + length bs → s'.emit_overflow_flag ≡ true
  pub stays : s.emit_overflow_flag ≡ true → s'.emit_overflow_flag ≡ true

-- Emitting any sequence of bytes from a position inside the buffer leaves the position inside it,
-- changes no byte before the position and none past the buffer, and keeps a raised overflow flag;
-- when the bytes fit, they stand behind the code, the position has moved on by their number and
-- the flag is as it was, and when they do not, the flag is raised.
pub bytes-Emitted :
    (bs : List ℕ) (s : Emitter) → s.code_pos ≤ cc_code_max → Emitted bs s (bytes bs s)
unfolding bytes bytes_from
bytes-Emitted [] s bound = record {
  bounded = bound;
  before = λ i lo. refl;
  outside = λ i hi. refl;
  at = λ fit. omega arith;
  code = λ fit. refl;
  fits = λ fit. refl;
  overflows = λ over. absurd (omega (arith, over, bound));
  stays = λ flag. flag;
}
bytes-Emitted (b ∷ bs) s bound = elim (Bool-cases (ltb s.code_pos cc_code_max)) [
  | inl room ↦
      let s1 = record s { code_buf = store s.code_buf s.code_pos b; code_pos = s.code_pos + 1 } in
      let lt : s.code_pos < cc_code_max = ground arith in
      let r = bytes-Emitted bs s1 (omega (arith, lt)) in
      rw room (record {
        bounded = r.bounded;
        before = λ i lo. r.before i (omega (arith, lo)) ∙ ground arith;
        outside = λ i hi. r.outside i hi ∙ ground arith;
        at = λ fit. r.at (omega arith) ∙ omega arith;
        code = λ fit.
            ap (λ x. x ∷ bytes_from (bytes bs s1).code_buf (length bs) (s.code_pos + 1))
              (r.before s.code_pos (omega arith) ∙ ground arith)
            ∙ ap (λ xs. b ∷ xs) (r.code (omega arith));
        fits = λ fit. r.fits (omega arith);
        overflows = λ over. r.overflows (omega arith);
        stays = r.stays;
      })
  | inr full ↦
      let s1 = record s { emit_overflow_flag = true } in
      let ge : cc_code_max ≤ s.code_pos = ground arith in
      let r = bytes-Emitted bs s1 bound in
      rw full (record {
        bounded = r.bounded;
        before = r.before;
        outside = r.outside;
        at = λ fit. absurd (omega arith);
        code = λ fit. absurd (omega arith);
        fits = λ fit. absurd (omega arith);
        overflows = λ over. r.stays refl;
        stays = λ flag. r.stays refl;
      })
]
