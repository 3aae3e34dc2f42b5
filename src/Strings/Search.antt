-- ===== src/Strings/Search.antt =====
-- strstr_raw of src/string.rs against the definition of a part of a list.
use sysrust.Common.{
  ℕ, zero, suc, ◌+◌, ◌≡◌, ◌<◌, Bool, true, false, ◌==◌, ◌&&◌, ◌||◌, some, List, [], ◌∷◌, Table,
  arith, refl, length, Bool-cases, inl, inr,
}
use sysrust.Strings.{strncmp, search, strstr_raw, difference}
use sysrust.Strings.Terminated.{IsString, strlen-length}
use sysrust.Strings.Compare.{difference-zero}

abbrev pub starts_with : (needle haystack : List ℕ) → Bool
starts_with [] ys = true
starts_with (x ∷ xs) [] = false
starts_with (x ∷ xs) (y ∷ ys) = (y == x) && starts_with xs ys

-- The needle is a run of neighbours in the haystack.
abbrev pub contains : (needle haystack : List ℕ) → Bool
contains [] ys = true
contains (x ∷ xs) [] = false
contains (x ∷ xs) (y ∷ ys) = starts_with (x ∷ xs) (y ∷ ys) || contains (x ∷ xs) ys

difference-nonzero :
    (a b : ℕ) → a < 256 → b < 256 → (a == b) ≡ false → (difference a b == 0) ≡ false
difference-nonzero a b ha hb other = ground (arith, (difference-zero a b ha hb).0)

strncmp-starts_with :
    (xs ys : List ℕ) (i h needle : ℕ) (mem : Table ℕ)
    → ((p : ℕ) → mem p < 256)
    → IsString mem (needle + i) xs
    → IsString mem (h + i) ys
    → (strncmp (length xs) i h needle mem == 0) ≡ starts_with xs ys
unfolding strncmp
strncmp-starts_with [] ys i h needle mem bytes hx hy = refl
strncmp-starts_with (x ∷ xs) [] i h needle mem bytes (at, (nz, hx)) hy =
    let other : (0 == x) ≡ false = ground arith in
    let small : x < 256 = rw at at (bytes (needle + i)) in
    rw (strncmp, hy, at, other) (difference-nonzero 0 x (omega arith) small other)
strncmp-starts_with (x ∷ xs) (y ∷ ys) i h needle mem bytes (at, (nz, hx)) (bt, (ny, hy)) =
    let small : x < 256 = rw at at (bytes (needle + i)) in
    let small' : y < 256 = rw bt at (bytes (h + i)) in
    let n1 : needle + i + 1 ≡ needle + (i + 1) = omega arith in
    let n2 : h + i + 1 ≡ h + (i + 1) = omega arith in
    let rest = strncmp-starts_with xs ys (i + 1) h needle mem bytes (rw n1 at hx) (rw n2 at hy) in
    let go : (y == 0) ≡ false = ground arith in
    elim (Bool-cases (y == x)) [
      | inl same ↦ rw (strncmp, at, bt, same, go) rest
      | inr other ↦ rw (strncmp, at, bt, other) (difference-nonzero y x small' small other)
    ]

search-contains :
    (x : ℕ) (xs ys : List ℕ) (fuel h needle : ℕ) (mem : Table ℕ)
    → ((p : ℕ) → mem p < 256)
    → IsString mem needle (x ∷ xs)
    → IsString mem h ys
    → length ys < fuel
    → search fuel h needle (suc (length xs)) mem ≡ some (contains (x ∷ xs) ys)
unfolding search
search-contains x xs ys zero h needle mem bytes hx hy enough = absurd (omega (arith, enough))
search-contains x xs [] (suc fuel) h needle mem bytes hx hy enough = rw (search, hy) refl
search-contains x xs (y ∷ ys) (suc fuel) h needle mem bytes hx (bt, (ny, hy)) enough =
    let go : (y == 0) ≡ false = ground arith in
    let n0 : needle ≡ needle + 0 = omega arith in
    let h0 : h ≡ h + 0 = omega arith in
    let whole : IsString mem (h + 0) (y ∷ ys) = rw (← h0) (bt, (ny, hy)) in
    let here = strncmp-starts_with (x ∷ xs) (y ∷ ys) 0 h needle mem bytes (rw n0 at hx) whole in
    let rest =
      search-contains x xs ys fuel (h + 1) needle mem bytes hx hy (omega (arith, enough)) in
    elim (Bool-cases (starts_with (x ∷ xs) (y ∷ ys))) [
      | inl t ↦ rw (search, bt, go, here, t) refl
      | inr f ↦ rw (search, bt, go, here, f) rest
    ]

-- On a memory of bytes with a needle and a haystack that end with a terminator, and fuel above
-- both lengths, strstr_raw ends with true exactly when the needle is a run of neighbouring bytes
-- of the haystack.
pub strstr_raw-contains :
    (xs ys : List ℕ) (fuel haystack needle : ℕ) (mem : Table ℕ)
    → ((p : ℕ) → mem p < 256)
    → IsString mem needle xs
    → IsString mem haystack ys
    → length xs < fuel
    → length ys < fuel
    → strstr_raw fuel haystack needle mem ≡ some (contains xs ys)
unfolding strstr_raw
strstr_raw-contains [] ys fuel haystack needle mem bytes hx hy ex ey = rw (strstr_raw, hx) refl
strstr_raw-contains (x ∷ xs) ys fuel haystack needle mem bytes hx hy ex ey =
    let n0 : needle ≡ needle + 0 = omega arith in
    let nlen = strlen-length (x ∷ xs) fuel 0 needle mem (rw n0 at hx) ex in
    let go : (mem needle == 0) ≡ false = ground (arith, hx.0, hx.1.0) in
    let e : 0 + suc (length xs) ≡ suc (length xs) = omega arith in
    rw (strstr_raw, go, nlen, e) (search-contains x xs ys fuel haystack needle mem bytes hx hy ey)
