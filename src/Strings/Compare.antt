-- ===== src/Strings/Compare.antt =====
-- strcmp of src/string.rs as the order of the dictionary, and strncmp and memcmp as tests of equality.
use sysrust.Common.{
  ℕ, zero, suc, ◌+◌, ◌^◌, ◌≡◌, ◌<◌, ◌↔◌, Bool, true, false, ◌==◌, Option, some, List, [], ◌∷◌,
  if◌then◌else◌, Table, arith, refl, ◌∙◌, sym, length, Bool-cases, ==→eq, ltb, leb, inl, inr,
}
use sysrust.Strings.{strcmp, difference}
use sysrust.Strings.Terminated.{IsString}

-- The order of the dictionary, which a proper prefix precedes.
abbrev pub precedes : List ℕ → List ℕ → Bool
precedes [] [] = false
precedes [] (y ∷ ys) = true
precedes (x ∷ xs) [] = false
precedes (x ∷ xs) (y ∷ ys) = if x == y then precedes xs ys else ltb x y

abbrev pub is_negative : ℕ → Bool
is_negative r = leb (2 ^ 31) r

-- What the result of a comparison says.
pub record Compared (xs ys : List ℕ) (o : Option ℕ) : Type 0 where
  pub result : ℕ
  pub ends : o ≡ some result
  pub equal : (result ≡ 0) ↔ (xs ≡ ys)
  pub order : is_negative result ≡ precedes xs ys

pub difference-zero : (a b : ℕ) → a < 256 → b < 256 → (difference a b ≡ 0) ↔ (a ≡ b)
difference-zero a b ha hb = (λ h. omega arith, λ h. omega arith)

difference-negative : (a b : ℕ) → a < 256 → b < 256 → is_negative (difference a b) ≡ ltb a b
difference-negative a b ha hb = ground arith

head-same : (x y : ℕ) (xs ys : List ℕ) → x ∷ xs ≡ y ∷ ys → x ≡ y
head-same x y xs ys h = cc h

-- On a memory of bytes with two strings that end with a terminator, and fuel above the length of
-- the first, strcmp ends; its result is 0 exactly when the strings are equal, and negative as an
-- i32 exactly when the first comes before the second in the order of the dictionary.
pub strcmp-Compared :
    (xs ys : List ℕ) (fuel a b : ℕ) (mem : Table ℕ)
    → ((p : ℕ) → mem p < 256)
    → IsString mem a xs
    → IsString mem b ys
    → length xs < fuel
    → Compared xs ys (strcmp fuel a b mem)
unfolding strcmp
strcmp-Compared xs ys zero a b mem bytes ha hb enough = absurd (omega (arith, enough))
strcmp-Compared [] [] (suc fuel) a b mem bytes ha hb enough =
    rw (strcmp, ha, hb)
      (record { result = 0; ends = refl; equal = (λ h. refl, λ h. refl); order = refl })
strcmp-Compared [] (y ∷ ys) (suc fuel) a b mem bytes ha (bt, (ny, hb)) enough =
    let small : y < 256 = rw bt at (bytes b) in
    rw (strcmp, ha, bt)
      (record {
        result = difference 0 y;
        ends = refl;
        equal = (
          λ h. absurd (ny (sym ((difference-zero 0 y (omega arith) small).0 h))),
          λ h. absurd (cc h),
        );
        order = difference-negative 0 y (omega arith) small ∙ ground (arith, ny);
      })
strcmp-Compared (x ∷ xs) [] (suc fuel) a b mem bytes (at, (nx, ha)) hb enough =
    let small : x < 256 = rw at at (bytes a) in
    let go : (x == 0) ≡ false = ground arith in
    rw (strcmp, at, hb, go)
      (record {
        result = difference x 0;
        ends = refl;
        equal =
            (λ h. absurd (nx ((difference-zero x 0 small (omega arith)).0 h)), λ h. absurd (cc h));
        order = difference-negative x 0 small (omega arith) ∙ ground arith;
      })
strcmp-Compared (x ∷ xs) (y ∷ ys) (suc fuel) a b mem bytes (at, (nx, ha)) (bt, (ny, hb)) enough =
    let small : x < 256 = rw at at (bytes a) in
    let small' : y < 256 = rw bt at (bytes b) in
    let go : (x == 0) ≡ false = ground arith in
    elim (Bool-cases (x == y)) [
      | inl same ↦
          let rest =
            strcmp-Compared xs ys fuel (a + 1) (b + 1) mem bytes ha hb (omega (arith, enough)) in
          let e = ==→eq x y same in
          rw (strcmp, at, bt, go, same)
            (record {
              result = rest.result;
              ends = rest.ends;
              equal = (λ h. cc (e, rest.equal.0 h), λ h. rest.equal.1 (cc h));
              order = rw same rest.order;
            })
      | inr other ↦
          rw (strcmp, at, bt, go, other)
            (record {
              result = difference x y;
              ends = refl;
              equal = (
                λ h. absurd (ground (arith, (difference-zero x y small small').0 h, other)),
                λ h. absurd (ground (arith, other, head-same x y xs ys h)),
              );
              order = rw other (difference-negative x y small small');
            })
    ]
