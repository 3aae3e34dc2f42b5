-- ===== src/Vmm/Tree.antt =====
-- The tables of src/vmm.rs form a tree: each table page has one place in it, the list of the indices
-- that lead to it from the PML4, the last index first.
use sysrust.Common.{
  ℕ, ◌+◌, ◌*◌, ◌/◌, ◌^◌, ◌==◌, ◌&&◌, not, none, Bool, Bool-cases, inl, inr, ◌∙◌, ◌%◌, ◌≡◌, ◌≢◌, ◌<◌,
  List, [], ◌∷◌, true, false, Option, some, if◌then◌else◌, length, Table, arith, refl,
}
use sysrust.Vmm.{is_present, address_of, zero_page}

abbrev pub Places : Type 0
Places = Table (Option (List ℕ))

-- Bit 7 of a present entry above the last level: it maps a large page, and leads to no table.
abbrev pub is_large : ℕ → Bool
is_large entry = entry / 2 ^ 7 % 2 == 1

abbrev pub is_table : ℕ → Bool
is_table entry = is_present entry && not (is_large entry)

-- Three levels of tables below the root; the entries of the last level map pages. Large pages, such
-- as those of boot.s, are leaves of the tree.
pub record IsTree (mem : Table ℕ) (root : ℕ) (place : Places) : Type 0 where
  pub at_root : place root ≡ some []
  pub aligned : (p : ℕ) (π : List ℕ) → place p ≡ some π → (p % 4096 ≡ 0) × (0 < p)
  pub linked :
      (p : ℕ) (π : List ℕ) (i : ℕ)
      → place p ≡ some π
      → length π < 3
      → i < 512
      → is_table (mem (p + i * 8)) ≡ true
      → place (address_of (mem (p + i * 8))) ≡ some (i ∷ π)

-- What the indices lead to after an entry that leads to no table.
abbrev pub stopped : (entry : ℕ) → Option ℕ
stopped entry = if is_present entry then none else some 0

-- The entry that the indices lead to, 0 where a table on the way is missing; nothing under a large
-- page.
abbrev pub entry_at : Table ℕ → (table : ℕ) → List ℕ → Option ℕ
entry_at mem p [] = some 0
entry_at mem p (i ∷ []) = some (mem (p + i * 8))
entry_at mem p (i ∷ j ∷ rest) =
    let below = entry_at mem (address_of (mem (p + i * 8))) (j ∷ rest) in
    if is_table (mem (p + i * 8)) then below else stopped (mem (p + i * 8))

abbrev pub AreIndices : List ℕ → Type 0
AreIndices [] = Unit {0}
AreIndices (i ∷ is) = (i < 512) × AreIndices is

-- The place of a table under `p` when `p` has place `π`.
abbrev pub joined : List ℕ → List ℕ → List ℕ
joined [] π = π
joined (i ∷ is) π = joined is (i ∷ π)

-- Words of different pages, or of different indices, are different words.
pub word_apart :
    (p q i j : ℕ)
    → p % 4096 ≡ 0
    → q % 4096 ≡ 0
    → i < 512
    → j < 512
    → p + i * 8 ≡ q + j * 8
    → (p ≡ q) × (i ≡ j)
word_apart p q i j hp hq hi hj e = omega arith

pub zero_page-inside : (n i : ℕ) (mem : Table ℕ) → i < 512 → zero_page n mem (n + i * 8) ≡ 0
zero_page-inside n i mem h = ground arith

pub zero_page-outside :
    (n q i : ℕ) (mem : Table ℕ)
    → n % 4096 ≡ 0
    → q % 4096 ≡ 0
    → q ≢ n
    → i < 512
    → zero_page n mem (q + i * 8) ≡ mem (q + i * 8)
zero_page-outside n q i mem hn hq apart hi = ground arith

module _ (mem : Table ℕ) (p i j : ℕ) (rest : List ℕ) where
  pub entry_at-present :
      is_table (mem (p + i * 8)) ≡ true
      → entry_at mem p (i ∷ j ∷ rest) ≡ entry_at mem (address_of (mem (p + i * 8))) (j ∷ rest)
  entry_at-present h = rw h refl

  pub entry_at-stopped :
      is_table (mem (p + i * 8)) ≡ false → entry_at mem p (i ∷ j ∷ rest) ≡ stopped (mem (p + i * 8))
  entry_at-stopped h = rw h refl

  -- Where no large page is on the way, a present entry leads to a table.
  pub entry_at-below :
      entry_at mem p (i ∷ j ∷ rest) ≢ none
      → is_present (mem (p + i * 8)) ≡ true
      → (is_table (mem (p + i * 8)) ≡ true)
        × (entry_at mem (address_of (mem (p + i * 8))) (j ∷ rest) ≢ none)
  entry_at-below small here = elim (Bool-cases (is_table (mem (p + i * 8)))) [
    | inl h ↦ (h, λ e. small (entry_at-present h ∙ e))
    | inr h ↦ absurd (small (entry_at-stopped h ∙ rw here refl))
  ]

pub not_table : (entry : ℕ) → is_present entry ≡ false → is_table entry ≡ false
not_table entry h = rw h refl

pub table-present : (entry : ℕ) → is_table entry ≡ true → is_present entry ≡ true
table-present entry h = ground arith
