-- ===== src/Strings.antt =====
-- The routines of src/string.rs on memory by bytes, a pointer being an address. A loop that ends at
-- a terminator runs on fuel; `none` is out of fuel. A routine that returns `dest` gives the memory.
pub mod Atoi
pub mod Compare
pub mod Copies
pub mod Moves
pub mod Search
pub mod Terminated
pub mod Tests
use sysrust.Common.{
  ℕ, zero, suc, ◌+◌, ◌-◌, ◌*◌, ◌%◌, ◌^◌, Bool, true, false, ◌&&◌, ◌||◌, not, Option, none, some,
  ◌==◌, ltb, leb, if◌then◌else◌, Table, store, for_range,
}

-- The difference of two bytes, as the 32 bits of an i32.
abbrev pub difference : (a b : ℕ) → ℕ
difference a b = (a + 2 ^ 32 - b) % 2 ^ 32

unfoldable pub strlen : (fuel len s : ℕ) → Table ℕ → Option ℕ
strlen zero len s mem = none
strlen (suc fuel) len s mem =
    let rest = strlen fuel (len + 1) s mem in if mem (s + len) == 0 then some len else rest

unfoldable pub strcmp : (fuel a b : ℕ) → Table ℕ → Option ℕ
strcmp zero a b mem = none
strcmp (suc fuel) a b mem =
    let rest = strcmp fuel (a + 1) (b + 1) mem in
    if not (mem a == 0) && (mem a == mem b) then rest else some (difference (mem a) (mem b))

-- The loop of `strncmp`: `n` bytes left, from `i`.
unfoldable pub strncmp : (n i a b : ℕ) → Table ℕ → ℕ
strncmp zero i a b mem = 0
strncmp (suc n) i a b mem =
    let rest = strncmp n (i + 1) a b mem in
    if not (mem (a + i) == mem (b + i))
    then difference (mem (a + i)) (mem (b + i))
    else if mem (a + i) == 0
    then 0
    else rest

-- A copy through the terminator.
unfoldable pub copy_string : (fuel dest src : ℕ) → Table ℕ → Option (Table ℕ)
copy_string zero dest src mem = none
copy_string (suc fuel) dest src mem =
    let mem' = store mem dest (mem src) in
    let rest = copy_string fuel (dest + 1) (src + 1) mem' in
    if mem' src == 0 then some mem' else rest

unfoldable pub strcpy : (fuel dest src : ℕ) → Table ℕ → Option (Table ℕ)
unfolding copy_string
strcpy fuel dest src mem = copy_string fuel dest src mem

-- The second loop of `strncpy`: `n` bytes left, from `i`.
unfoldable pub pad : (n i dest : ℕ) → Table ℕ → Table ℕ
unfolding for_range
pad n i dest mem = for_range (λ k m. store m (dest + k) 0) n i mem

-- The first loop of `strncpy`, and the second from where it stops.
unfoldable pub copy_at_most : (n i dest src : ℕ) → Table ℕ → Table ℕ
unfolding pad
copy_at_most zero i dest src mem = mem
copy_at_most (suc n) i dest src mem =
    let rest = copy_at_most n (i + 1) dest src (store mem (dest + i) (mem (src + i))) in
    let padded = pad (suc n) i dest mem in if not (mem (src + i) == 0) then rest else padded

unfoldable pub strncpy : (dest src n : ℕ) → Table ℕ → Table ℕ
unfolding copy_at_most
strncpy dest src n mem = copy_at_most n 0 dest src mem

-- The first loop of `strcat`: the address of the terminator.
unfoldable pub end_of : (fuel d : ℕ) → Table ℕ → Option ℕ
end_of zero d mem = none
end_of (suc fuel) d mem = let rest = end_of fuel (d + 1) mem in if mem d == 0 then some d else rest

unfoldable pub strcat : (fuel dest src : ℕ) → Table ℕ → Option (Table ℕ)
unfolding end_of copy_string
strcat fuel dest src mem = elim (end_of fuel dest mem) [
  | none ↦ none
  | some d ↦ copy_string fuel d src mem
]

-- The address of the byte, or null (0).
unfoldable pub strchr : (fuel p c : ℕ) → Table ℕ → Option ℕ
strchr zero p c mem = none
strchr (suc fuel) p c mem =
    let rest = strchr fuel (p + 1) c mem in
    if mem p == 0 then some (if c == 0 then p else 0) else if mem p == c then some p else rest

unfoldable pub memcpy : (dest src n : ℕ) → Table ℕ → Table ℕ
unfolding for_range
memcpy dest src n mem = for_range (λ i m. store m (dest + i) (m (src + i))) n 0 mem

unfoldable pub memset : (dest val n : ℕ) → Table ℕ → Table ℕ
unfolding for_range
memset dest val n mem = for_range (λ i m. store m (dest + i) val) n 0 mem

-- The second loop of `memmove`, from the last byte.
unfoldable pub copy_down : (n dest src : ℕ) → Table ℕ → Table ℕ
copy_down zero dest src mem = mem
copy_down (suc i) dest src mem = copy_down i dest src (store mem (dest + i) (mem (src + i)))

unfoldable pub memmove : (dest src n : ℕ) → Table ℕ → Table ℕ
unfolding memcpy copy_down
memmove dest src n mem = if ltb dest src then memcpy dest src n mem else copy_down n dest src mem

-- The loop of `memcmp`: `n` bytes left, from `i`.
unfoldable pub memcmp : (n i a b : ℕ) → Table ℕ → ℕ
memcmp zero i a b mem = 0
memcmp (suc n) i a b mem =
    let rest = memcmp n (i + 1) a b mem in
    if not (mem (a + i) == mem (b + i)) then difference (mem (a + i)) (mem (b + i)) else rest

abbrev pub isdigit : ℕ → Bool
isdigit c = leb 48 c && leb c 57

abbrev pub isalpha : ℕ → Bool
isalpha c = (leb 97 c && leb c 122) || (leb 65 c && leb c 90)

abbrev pub isalnum : ℕ → Bool
isalnum c = isalpha c || isdigit c

abbrev pub isspace : ℕ → Bool
isspace c = (c == 32) || ((c == 9) || ((c == 10) || ((c == 13) || ((c == 12) || (c == 11)))))

-- The first loop of `atoi`.
unfoldable pub skip_space : (fuel s : ℕ) → Table ℕ → Option ℕ
skip_space zero s mem = none
skip_space (suc fuel) s mem =
    let rest = skip_space fuel (s + 1) mem in if isspace (mem s) then rest else some s

-- The second loop of `atoi`, on the 32 bits of an i32 that wraps.
unfoldable pub digits : (fuel s result : ℕ) → Table ℕ → Option ℕ
digits zero s result mem = none
digits (suc fuel) s result mem =
    let rest = digits fuel (s + 1) ((result * 10 + (mem s - 48)) % 2 ^ 32) mem in
    if isdigit (mem s) then rest else some result

abbrev pub negated : ℕ → ℕ
negated result = (2 ^ 32 - result) % 2 ^ 32

unfoldable pub atoi : (fuel s : ℕ) → Table ℕ → Option ℕ
unfolding skip_space digits
atoi fuel s mem = elim (skip_space fuel s mem) [
  | none ↦ none
  | some p ↦
      let minus : Option ℕ = elim (digits fuel (p + 1) 0 mem) [
        | none ↦ none
        | some r ↦ some (negated r)
      ] in
      if mem p == 45
      then minus
      else if mem p == 43
      then digits fuel (p + 1) 0 mem
      else digits fuel p 0 mem
]

-- The loop of `strstr_raw`.
unfoldable pub search : (fuel h needle nlen : ℕ) → Table ℕ → Option Bool
unfolding strncmp
search zero h needle nlen mem = none
search (suc fuel) h needle nlen mem =
    let rest = search fuel (h + 1) needle nlen mem in
    if mem h == 0 then some false else if strncmp nlen 0 h needle mem == 0 then some true else rest

unfoldable pub strstr_raw : (fuel haystack needle : ℕ) → Table ℕ → Option Bool
unfolding strlen search
strstr_raw fuel haystack needle mem =
    let found : Option Bool = elim (strlen fuel 0 needle mem) [
      | none ↦ none
      | some nlen ↦ search fuel haystack needle nlen mem
    ] in
    if mem needle == 0 then some true else found
