-- ===== src/Common/Tables.antt =====
-- Static arrays as functions of the index, and sequences measured by native numbers.
use Prim.Native.Nat.{ℕ, suc, ◌+◌}
use mathlib.Core.Path.{◌≡◌}
use mathlib.Core.Logic.{◌≢◌}
use mathlib.Core.List.{List, [], ◌∷◌, ◌++◌}
use native.Mathlib.Omega.{arith}
use sysrust.Common.Tests.{◌==◌, if◌then◌else◌}

-- A static array. Its length is a constant of the component; every index that the code forms is
-- compared with it or reduced by it first.
abbrev pub Table : Type 0 → Type 0
Table A = ℕ → A

module _ {A : Type 0} where
  -- `t[i] = v`.
  abbrev pub store : Table A → ℕ → A → Table A
  store t i v j = if j == i then v else t j

  abbrev pub length : List A → ℕ
  length [] = 0
  length (x ∷ xs) = suc (length xs)

  pub length-append : (xs ys : List A) → length (xs ++ ys) ≡ length xs + length ys
  length-append [] ys = omega arith
  length-append (x ∷ xs) ys = omega (arith, length-append xs ys)

pub store-hit : {A : Type 0} (t : Table A) (i : ℕ) (v : A) → store t i v i ≡ v
store-hit t i v = ground arith

pub store-miss : {A : Type 0} (t : Table A) (i j : ℕ) (v : A) → j ≢ i → store t i v j ≡ t j
store-miss t i j v apart = ground (arith, apart)
