-- ===== src/Strings/Moves.antt =====
-- The copies of memory in src/string.rs against a copy of all bytes at once.
use sysrust.Common.{
  ℕ, zero, suc, ◌+◌, ◌-◌, ◌≡◌, ◌≤◌, ◌⊎◌, inl, inr, ◌&&◌, ltb, leb, if◌then◌else◌, Table, store,
  arith, ◌∙◌, for_range, Bool-cases,
}
use sysrust.Strings.{memcpy, memset, memmove, copy_down}

-- Each byte of the range is the old byte of the source.
abbrev pub moved : (dest src n : ℕ) → Table ℕ → Table ℕ
moved dest src n mem a = if leb dest a && ltb a (dest + n) then mem (src + (a - dest)) else mem a

copy_up-moved :
    (n i dest src : ℕ) (mem : Table ℕ) (a : ℕ)
    → ((dest ≤ src) ⊎ (src + (i + n) ≤ dest))
    → for_range (λ k m. store m (dest + k) (m (src + k))) n i mem a
      ≡ (if leb (dest + i) a && ltb a (dest + (i + n)) then mem (src + (a - dest)) else mem a)
unfolding for_range
copy_up-moved zero i dest src mem a apart = ground arith
copy_up-moved (suc n) i dest src mem a apart =
    let rest =
      copy_up-moved n (i + 1) dest src (store mem (dest + i) (mem (src + i))) a (ground arith) in
    rest ∙ ground (arith, apart)

copy_down-moved :
    (n dest src : ℕ) (mem : Table ℕ) (a : ℕ)
    → ((src ≤ dest) ⊎ (dest + n ≤ src))
    → copy_down n dest src mem a ≡ moved dest src n mem a
unfolding copy_down
copy_down-moved zero dest src mem a apart = ground arith
copy_down-moved (suc i) dest src mem a apart =
    let rest = copy_down-moved i dest src (store mem (dest + i) (mem (src + i))) a (ground arith) in
    rest ∙ ground (arith, apart)

pub memcpy-moved :
    (dest src n : ℕ) (mem : Table ℕ) (a : ℕ)
    → ((dest ≤ src) ⊎ (src + n ≤ dest))
    → memcpy dest src n mem a ≡ moved dest src n mem a
unfolding memcpy
memcpy-moved dest src n mem a apart = copy_up-moved n 0 dest src mem a (ground arith) ∙ ground arith

-- For every source, destination, length and memory, overlapping or not, memmove gives each byte of
-- the destination the byte that stood in the source before, and leaves every other byte.
pub memmove-moved :
    (dest src n : ℕ) (mem : Table ℕ) (a : ℕ) → memmove dest src n mem a ≡ moved dest src n mem a
unfolding memmove
memmove-moved dest src n mem a = elim (Bool-cases (ltb dest src)) [
  | inl up ↦ rw up (memcpy-moved dest src n mem a (inl (ground arith)))
  | inr down ↦ rw down (copy_down-moved n dest src mem a (inl (ground arith)))
]

fill :
    (n i dest val : ℕ) (mem : Table ℕ) (a : ℕ)
    → for_range (λ k m. store m (dest + k) val) n i mem a
      ≡ (if leb (dest + i) a && ltb a (dest + (i + n)) then val else mem a)
unfolding for_range
fill zero i dest val mem a = ground arith
fill (suc n) i dest val mem a = fill n (i + 1) dest val (store mem (dest + i) val) a ∙ ground arith

pub memset-filled :
    (dest val n : ℕ) (mem : Table ℕ) (a : ℕ)
    → memset dest val n mem a ≡ (if leb dest a && ltb a (dest + n) then val else mem a)
unfolding memset
memset-filled dest val n mem a = fill n 0 dest val mem a ∙ ground arith
