-- ===== src/Strings/Tests.antt =====
-- Runs of the routines of src/string.rs, and the theorems at them.
use sysrust.Common.{
  ℕ, ◌-◌, ◌^◌, ◌≡◌, ◌<◌, inl, ◌==◌, some, [], ◌∷◌, ◌++◌, if◌then◌else◌, Table, arith, refl,
}
use sysrust.Strings.{
  strlen, strcmp, strncmp, strncpy, strcat, strchr, memcpy, memmove, memcmp, atoi, strstr_raw,
}
use sysrust.Strings.Terminated.{IsString}
use sysrust.Strings.Moves.{memmove-moved, moved}
use sysrust.Strings.Compare.{Compared, strcmp-Compared}
use sysrust.Strings.Copies.{Copied, strcat-Copied}
use sysrust.Strings.Search.{contains, strstr_raw-contains}
use sysrust.Strings.Atoi.{Sign, signed, decimal, AreDigits, AreSpaces, atoi-signed}

-- "ab" at 10, "abc" at 20, " -17" at 30, zeros elsewhere.
abbrev texts : Table ℕ
texts a =
    if a == 10
    then 97
    else if a == 11
    then 98
    else if a == 20
    then 97
    else if a == 21
    then 98
    else if a == 22
    then 99
    else if a == 30
    then 32
    else if a == 31
    then 45
    else if a == 32
    then 49
    else if a == 33
    then 55
    else 0

texts_small : (p : ℕ) → texts p < 256
texts_small p = ground arith

ab : IsString texts 10 (97 ∷ 98 ∷ [])
ab = (refl, (ground arith, (refl, (ground arith, refl))))

abc : IsString texts 20 (97 ∷ 98 ∷ 99 ∷ [])
abc = (refl, (ground arith, (refl, (ground arith, (refl, (ground arith, refl))))))

minus_17 : IsString texts 30 (32 ∷ 45 ∷ 49 ∷ 55 ∷ [])
minus_17 = (
  refl,
  (ground arith, (refl, (ground arith, (refl, (ground arith, (refl, (ground arith, refl))))))),
)

length_abc : strlen 5 0 20 texts ≡ some 3
unfolding strlen
length_abc = refl

find_c : strchr 5 20 99 texts ≡ some 22
unfolding strchr
find_c = refl

find_nothing : strchr 5 20 120 texts ≡ some 0
unfolding strchr
find_nothing = refl

equal_at_two : strncmp 2 0 10 20 texts ≡ 0
unfolding strncmp
equal_at_two = refl

different_at_three : memcmp 3 0 10 20 texts ≡ 2 ^ 32 - 99
unfolding memcmp
different_at_three = refl

padded : strncpy 20 10 4 texts 22 ≡ 0
unfolding strncpy
padded = refl

-- Overlap in both directions.
memmove_example : (memmove 21 20 3 texts 23 ≡ 99) × (memmove 20 21 2 texts 21 ≡ 99)
unfolding memmove memcpy
memmove_example = (refl, refl)

memmove-moved_example : memmove 21 20 3 texts 23 ≡ moved 21 20 3 texts 23
memmove-moved_example = memmove-moved 21 20 3 texts 23

strcmp-Compared_example : Compared (97 ∷ 98 ∷ []) (97 ∷ 98 ∷ 99 ∷ []) (strcmp 5 10 20 texts)
strcmp-Compared_example =
    strcmp-Compared (97 ∷ 98 ∷ []) (97 ∷ 98 ∷ 99 ∷ []) 5 10 20 texts texts_small ab abc
      (omega arith)

strcat-Copied_example :
    Copied 10 ((97 ∷ 98 ∷ []) ++ (97 ∷ 98 ∷ 99 ∷ [])) texts (strcat 5 10 20 texts)
strcat-Copied_example =
    strcat-Copied (97 ∷ 98 ∷ []) (97 ∷ 98 ∷ 99 ∷ []) 5 10 20 texts ab abc (omega arith)
      (omega arith) (inl (omega arith))

strstr_raw-contains_example :
    strstr_raw 5 20 10 texts ≡ some (contains (97 ∷ 98 ∷ []) (97 ∷ 98 ∷ 99 ∷ []))
strstr_raw-contains_example =
    strstr_raw-contains (97 ∷ 98 ∷ []) (97 ∷ 98 ∷ 99 ∷ []) 5 20 10 texts texts_small ab abc
      (omega arith) (omega arith)

one_space : AreSpaces (32 ∷ [])
one_space = (refl, tt)

one_seven : AreDigits (1 ∷ 7 ∷ [])
one_seven = (omega arith, (omega arith, tt))

atoi-signed_example : atoi 5 30 texts ≡ some (signed Sign.minus (decimal 0 (1 ∷ 7 ∷ [])))
atoi-signed_example =
    atoi-signed (32 ∷ []) Sign.minus (1 ∷ 7 ∷ []) 5 30 texts one_space one_seven minus_17
      (omega arith) (omega arith)
