-- ===== src/Strings/Copies.antt =====
-- strcpy, strncpy and strcat of src/string.rs.
use sysrust.Common.{
  ℕ, zero, suc, ◌+◌, ◌≡◌, ◌<◌, ◌⊎◌, inl, true, false, ◌==◌, Option, some, List, [], ◌∷◌, ◌++◌,
  Table, store, arith, refl, ◌∙◌, length, length-append,
}
use sysrust.Strings.{copy_string, strcat}
use sysrust.Strings.Terminated.{IsString, IsString-same, end_of-length}

-- A copy that ended: the string is at `dest`, and every byte outside its place is as it was.
pub record Copied (dest : ℕ) (ys : List ℕ) (mem : Table ℕ) (o : Option (Table ℕ)) : Type 0 where
  pub memory : Table ℕ
  pub ends : o ≡ some memory
  pub string : IsString memory dest ys
  pub outside : (a : ℕ) → (a < dest) ⊎ (dest + length ys < a) → memory a ≡ mem a

pub copy_string-Copied :
    (xs : List ℕ) (fuel dest src : ℕ) (mem : Table ℕ)
    → IsString mem src xs
    → length xs < fuel
    → (dest < src) ⊎ (src + length xs < dest)
    → Copied dest xs mem (copy_string fuel dest src mem)
unfolding copy_string
copy_string-Copied xs zero dest src mem h enough apart = absurd (omega (arith, enough))
copy_string-Copied [] (suc fuel) dest src mem h enough apart =
    let mem' = store mem dest (mem src) in
    let stops : (mem' src == 0) ≡ true = ground (arith, apart) in
    rw (copy_string, stops)
      (record {
        memory = mem';
        ends = refl;
        string = ground arith;
        outside = λ a away. ground (arith, away);
      })
copy_string-Copied (x ∷ xs) (suc fuel) dest src mem (at, (nz, h)) enough apart =
    let mem' = store mem dest (mem src) in
    let go : (mem' src == 0) ≡ false = ground (arith, apart) in
    let h' = IsString-same xs (src + 1) mem mem' (λ a lo hi. ground (arith, apart)) h in
    let r =
      copy_string-Copied xs fuel (dest + 1) (src + 1) mem' h' (omega (arith, enough))
        (ground (arith, apart)) in
    rw (copy_string, go)
      (record {
        memory = r.memory;
        ends = r.ends;
        string = (r.outside dest (inl (omega arith)) ∙ ground (arith, at), (nz, r.string));
        outside = λ a away. r.outside a (ground (arith, away)) ∙ ground (arith, away);
      })

append-IsString :
    (xs ys : List ℕ) (dest : ℕ) (mem mem' : Table ℕ)
    → IsString mem dest xs
    → ((a : ℕ) → a < dest + length xs → mem' a ≡ mem a)
    → IsString mem' (dest + length xs) ys
    → IsString mem' dest (xs ++ ys)
append-IsString [] ys dest mem mem' h same t = let e : dest + 0 ≡ dest = omega arith in rw e at t
append-IsString (x ∷ xs) ys dest mem mem' (at, (nz, h)) same t =
    let e : dest + suc (length xs) ≡ dest + 1 + length xs = omega arith in
    (
      same dest (omega arith) ∙ at,
      (nz, append-IsString xs ys (dest + 1) mem mem' h (λ a lo. same a (omega arith)) (rw e at t)),
    )

-- strcat gives the two strings behind each other, and leaves the bytes outside their place.
pub strcat-Copied :
    (xs ys : List ℕ) (fuel dest src : ℕ) (mem : Table ℕ)
    → IsString mem dest xs
    → IsString mem src ys
    → length xs < fuel
    → length ys < fuel
    → (dest + length xs < src) ⊎ (src + length ys < dest + length xs)
    → Copied dest (xs ++ ys) mem (strcat fuel dest src mem)
unfolding strcat
strcat-Copied xs ys fuel dest src mem hx hy ex ey apart =
    let r = copy_string-Copied ys fuel (dest + length xs) src mem hy ey apart in
    rw (strcat, end_of-length xs fuel dest mem hx ex)
      (record {
        memory = r.memory;
        ends = r.ends;
        string = append-IsString xs ys dest mem r.memory hx (λ a lo. r.outside a (inl lo)) r.string;
        outside = λ a away. r.outside a (ground (arith, away, length-append xs ys));
      })
