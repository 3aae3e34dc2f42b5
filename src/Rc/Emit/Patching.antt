-- ===== src/Rc/Emit/Patching.antt =====
-- Patching a jump of src/rc/emit.rs against emitting it with its displacement known.
use sysrust.Common.{
  ℕ, ◌+◌, ◌/◌, ◌%◌, ◌^◌, ◌≡◌, ◌≤◌, true, List, [], ◌∷◌, ltb, leb, Table, store, arith, refl, ap,
  ◌∙◌, Bool-cases, inl, inr, fun_ext,
}
use sysrust.Rc.Emit.{
  Emitter, byte, bytes, cc_code_max, dword, dword_bytes, jcc_placeholder, jmp_placeholder, jmp_rel,
  patch_dword,
}
use sysrust.Rc.Emit.Buffer.{bytes-Emitted}

-- The buffer with a word at `p`.
abbrev written : Table ℕ → (p val : ℕ) → Table ℕ
written t p val =
    store
      (store (store (store t p (val % 2 ^ 8)) (p + 1) (val / 2 ^ 8 % 2 ^ 8)) (p + 2)
        (val / 2 ^ 16 % 2 ^ 8))
      (p + 3) (val / 2 ^ 24 % 2 ^ 8)

patch_dword-written :
    (p val : ℕ) (s : Emitter)
    → p + 4 ≤ cc_code_max
    → patch_dword p val s ≡ record s { code_buf = written s.code_buf p val }
unfolding patch_dword
patch_dword-written p val s fit =
    let e : leb ((p + 4) % 2 ^ 32) cc_code_max ≡ true = ground (arith, fit) in rw e refl

written-store :
    (t : Table ℕ) (p val i b : ℕ)
    → p + 4 ≤ i
    → written (store t i b) p val ≡ store (written t p val) i b
written-store t p val i b apart = fun_ext (λ j. ground (arith, apart))

-- A byte behind the word can be emitted before or after the word is patched.
patch_dword-byte :
    (p val b : ℕ) (s : Emitter)
    → p + 4 ≤ s.code_pos
    → p + 4 ≤ cc_code_max
    → patch_dword p val (byte b s) ≡ byte b (patch_dword p val s)
patch_dword-byte p val b s apart fit =
    rw (patch_dword-written p val s fit, patch_dword-written p val (byte b s) fit)
      (elim (Bool-cases (ltb s.code_pos cc_code_max)) [
        | inl room ↦ rw room (
            ap (λ t. record s { code_buf = t; code_pos = s.code_pos + 1 })
              (written-store s.code_buf p val s.code_pos b apart))
        | inr full ↦ rw full refl
      ])

patch_dword-bytes :
    (bs : List ℕ) (p val : ℕ) (s : Emitter)
    → p + 4 ≤ s.code_pos
    → p + 4 ≤ cc_code_max
    → patch_dword p val (bytes bs s) ≡ bytes bs (patch_dword p val s)
unfolding bytes
patch_dword-bytes [] p val s apart fit = refl
patch_dword-bytes (b ∷ bs) p val s apart fit =
    let on : s.code_pos ≤ (byte b s).code_pos = ground arith in
    patch_dword-bytes bs p val (byte b s) (omega (arith, apart, on)) fit
    ∙ ap (bytes bs) (patch_dword-byte p val b s apart fit)

-- A placeholder that is patched at once is the word.
patch_dword-dword :
    (val : ℕ) (s : Emitter)
    → s.code_pos + 4 ≤ cc_code_max
    → patch_dword s.code_pos val (dword 0 s) ≡ dword val s
unfolding bytes
patch_dword-dword val s fit =
    let p = s.code_pos in
    let e0 : ltb p cc_code_max ≡ true = ground (arith, fit) in
    let e1 : ltb (p + 1) cc_code_max ≡ true = ground (arith, fit) in
    let e2 : ltb (p + 1 + 1) cc_code_max ≡ true = ground (arith, fit) in
    let e3 : ltb (p + 1 + 1 + 1) cc_code_max ≡ true = ground (arith, fit) in
    rw (patch_dword-written p val (dword 0 s) fit) (
      rw (e0, e1, e2, e3)
        (ap (λ t. record s { code_buf = t; code_pos = p + 1 + 1 + 1 + 1 })
          (fun_ext (λ j. ground arith))))

-- Code between the placeholder and its patch makes no difference.
patched_later :
    (bs : List ℕ) (val : ℕ) (s : Emitter)
    → s.code_pos + 4 ≤ cc_code_max
    → patch_dword s.code_pos val (bytes bs (dword 0 s)) ≡ bytes bs (dword val s)
patched_later bs val s fit =
    let r = bytes-Emitted (dword_bytes 0) s (omega arith) in
    patch_dword-bytes bs s.code_pos val (dword 0 s) (omega (arith, r.at fit)) fit
    ∙ ap (bytes bs) (patch_dword-dword val s fit)

-- With room for the jump in the buffer, emitting a placeholder, then any bytes, and then patching
-- the displacement gives the same state as emitting the jump with that displacement and then the
-- bytes, for jmp and for the conditional jumps.
pub placeholder-patched :
    (bs : List ℕ) (rel cc : ℕ) (s : Emitter)
    → s.code_pos + 6 ≤ cc_code_max
    → (patch_dword (jmp_placeholder s).0 rel (bytes bs (jmp_placeholder s).1)
        ≡ bytes bs (jmp_rel rel s))
      × (patch_dword (jcc_placeholder cc s).0 rel (bytes bs (jcc_placeholder cc s).1)
          ≡ bytes bs (bytes (0x0f ∷ (0x80 + cc) % 2 ^ 8 ∷ dword_bytes rel) s))
unfolding bytes
placeholder-patched bs rel cc s fit =
    let jmp = bytes-Emitted (0xe9 ∷ []) s (omega arith) in
    let jcc = bytes-Emitted (0x0f ∷ (0x80 + cc) % 2 ^ 8 ∷ []) s (omega arith) in
    (
      patched_later bs rel (bytes (0xe9 ∷ []) s) (omega (arith, jmp.at (omega arith))),
      patched_later bs rel (bytes (0x0f ∷ (0x80 + cc) % 2 ^ 8 ∷ []) s)
          (omega (arith, jcc.at (omega arith))),
    )
