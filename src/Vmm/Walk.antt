-- ===== src/Vmm/Walk.antt =====
-- Installing a new table in the tree of src/vmm.rs: the tree stays one, and no translation changes.
use sysrust.Common.{
  store-hit, store-miss, ℕ, ◌+◌, ◌*◌, ◌/◌, ◌%◌, ◌^◌, ◌≡◌, ◌≢◌, ◌<◌, List, [], ◌∷◌, true, false,
  some, none, length, Table, store, arith, refl, ap, ◌∙◌, sym, ◌==◌, ◌⊎◌, inl, inr, Bool-cases,
  ==→eq,
}
use native.Mathlib.Decide.{ℕ_discrete}
use sysrust.Vmm.{is_present, address_of, zero_page}
use sysrust.Vmm.Tree.{
  Places, IsTree, entry_at, entry_at-present, entry_at-stopped, is_table, stopped, not_table,
  AreIndices, word_apart, zero_page-inside, zero_page-outside,
}

-- Every entry of a page of zeros leads nowhere.
pub entry_at-zeros :
    (mem : Table ℕ) (n : ℕ) (is : List ℕ)
    → AreIndices is
    → ((k : ℕ) → k < 512 → mem (n + k * 8) ≡ 0)
    → entry_at mem n is ≡ some 0
entry_at-zeros mem n [] hi zeros = refl
entry_at-zeros mem n (i ∷ []) hi zeros = ap some (zeros i hi.0)
entry_at-zeros mem n (i ∷ j ∷ rest) hi zeros = rw (zeros i hi.0) refl

module _ (mem : Table ℕ) (root : ℕ) (place : Places) (tree : IsTree mem root place) (p i n : ℕ)
    (π : List ℕ) (at_p : place p ≡ some π) (shallow : length π < 3) (small : i < 512)
    (missing : is_present (mem (p + i * 8)) ≡ false) (fresh : place n ≡ none) (page : n % 4096 ≡ 0)
    (real : 0 < n) (reach : n < 2 ^ 52) where
  abbrev pub mem' : Table ℕ
  mem' = store (zero_page n mem) (p + i * 8) (n / 8 * 8 + 7)

  abbrev pub place' : Places
  place' = store place n (some (i ∷ π))

  placed-ne : (q : ℕ) (ρ : List ℕ) → place q ≡ some ρ → q ≢ n
  placed-ne q ρ h e = cc (ap place e)

  pub link : mem' (p + i * 8) ≡ n / 8 * 8 + 7
  link = store-hit (zero_page n mem) (p + i * 8) (n / 8 * 8 + 7)

  pub link-address : address_of (mem' (p + i * 8)) ≡ n
  link-address = ap address_of link ∙ omega (arith, page, reach)

  pub link-table : is_table (mem' (p + i * 8)) ≡ true
  link-table = ap is_table link ∙ ground (arith, page)

  pub zeros : (k : ℕ) → k < 512 → mem' (n + k * 8) ≡ 0
  zeros k h =
      let apart : n + k * 8 ≢ p + i * 8 = λ e.
        placed-ne p π at_p (sym (word_apart n p k i page (tree.aligned p π at_p).0 h small e).0) in
      store-miss (zero_page n mem) (p + i * 8) (n + k * 8) (n / 8 * 8 + 7) apart
      ∙ zero_page-inside n k mem h

  -- The other entries of the tables.
  pub kept :
      (q k : ℕ) (ρ : List ℕ)
      → place q ≡ some ρ
      → k < 512
      → q + k * 8 ≢ p + i * 8
      → mem' (q + k * 8) ≡ mem (q + k * 8)
  kept q k ρ at_q hk apart =
      store-miss (zero_page n mem) (p + i * 8) (q + k * 8) (n / 8 * 8 + 7) apart
      ∙ zero_page-outside n q k mem page (tree.aligned q ρ at_q).0 (placed-ne q ρ at_q) hk

  -- A present entry is another one than the new.
  present-apart : (q k : ℕ) → is_present (mem (q + k * 8)) ≡ true → q + k * 8 ≢ p + i * 8
  present-apart q k here e = cc (ap (λ a. is_present (mem a)) e)

  pub place-kept : (q : ℕ) (ρ : List ℕ) → place q ≡ some ρ → place' q ≡ some ρ
  place-kept q ρ at_q = store-miss place n q (some (i ∷ π)) (placed-ne q ρ at_q) ∙ at_q

  pub place-new : place' n ≡ some (i ∷ π)
  place-new = store-hit place n (some (i ∷ π))

  -- Of the new tree, a page is the new table or an old one.
  old_or_new :
      (q : ℕ) (ρ : List ℕ) → place' q ≡ some ρ → ((q ≡ n) × (ρ ≡ i ∷ π)) ⊎ (place q ≡ some ρ)
  old_or_new q ρ h = elim (Bool-cases (q == n)) [
    | inl same ↦ inl (==→eq q n same, cc (h, ap place' (==→eq q n same), place-new))
    | inr other ↦ inr (rw other at h)
  ]

  pub installed-IsTree : IsTree mem' root place'
  installed-IsTree = record {
    at_root = place-kept root [] tree.at_root;
    aligned = λ q ρ h. elim (old_or_new q ρ h) [
      | inl (same, path) ↦ (rw same page, rw same real)
      | inr old ↦ tree.aligned q ρ old
    ];
    linked = λ q ρ k h deep hk here. elim (old_or_new q ρ h) [
      | inl (same, path) ↦ absurd (cc (zeros k hk, same, here))
      | inr old ↦ elim (ℕ_discrete (q + k * 8) (p + i * 8)) [
        | yes e ↦
            let (same, index) =
              word_apart q p k i (tree.aligned q ρ old).0 (tree.aligned p π at_p).0 hk small e in
            let path : some (i ∷ π) ≡ some (k ∷ ρ) = cc (index, at_p, old, ap place same) in
            ap (λ a. place' (address_of (mem' a))) e ∙ ap place' link-address ∙ place-new ∙ path
        | no apart ↦
            let same = kept q k ρ old hk apart in
            let under = tree.linked q ρ k old deep hk (ap is_table (sym same) ∙ here) in
            ap (λ e. place' (address_of e)) same
            ∙ place-kept (address_of (mem (q + k * 8))) (k ∷ ρ) under
      ]
    ];
  }

  -- What the tables translate is as before.
  pub installed-entry_at :
      (q : ℕ) (ρ is : List ℕ)
      → place q ≡ some ρ
      → length ρ + length is ≡ 4
      → AreIndices is
      → entry_at mem' q is ≡ entry_at mem q is
  installed-entry_at q ρ [] at_q full hi = refl
  installed-entry_at q ρ (k ∷ []) at_q full hi = ap some (
      kept q k ρ at_q hi.0 (λ e.
        let same =
          (word_apart q p k i (tree.aligned q ρ at_q).0 (tree.aligned p π at_p).0 hi.0 small e).0 in
        let paths : ρ ≡ π = cc (at_q, at_p, ap place same) in
        omega (arith, full, shallow, ap (λ l. length l) paths)))
  installed-entry_at q ρ (k ∷ j ∷ rest) at_q full hi = elim (ℕ_discrete (q + k * 8) (p + i * 8)) [
    | yes e ↦
        let absent : is_present (mem (q + k * 8)) ≡ false =
          ap (λ a. is_present (mem a)) e ∙ missing in
        let old = not_table (mem (q + k * 8)) absent in
        let zero_entry : stopped (mem (q + k * 8)) ≡ some 0 = rw absent refl in
        let address : address_of (mem' (q + k * 8)) ≡ n =
          ap (λ a. address_of (mem' a)) e ∙ link-address in
        let nothing = entry_at-zeros mem' n (j ∷ rest) hi.1 zeros in
        let here : is_table (mem' (q + k * 8)) ≡ true =
          ap (λ a. is_table (mem' a)) e ∙ link-table in
        entry_at-present mem' q k j rest here
        ∙ ap (λ t. entry_at mem' t (j ∷ rest)) address
        ∙ nothing
        ∙ sym (entry_at-stopped mem q k j rest old ∙ zero_entry)
    | no apart ↦
        let same = kept q k ρ at_q hi.0 apart in
        elim (Bool-cases (is_table (mem (q + k * 8)))) [
          | inr h ↦
              entry_at-stopped mem' q k j rest (ap is_table same ∙ h)
              ∙ ap stopped same
              ∙ sym (entry_at-stopped mem q k j rest h)
          | inl h ↦
              let under = tree.linked q ρ k at_q (omega (arith, full)) hi.0 h in
              entry_at-present mem' q k j rest (ap is_table same ∙ h)
              ∙ ap (λ e. entry_at mem' (address_of e) (j ∷ rest)) same
              ∙ installed-entry_at (address_of (mem (q + k * 8))) (k ∷ ρ) (j ∷ rest) under
                  (omega (arith, full)) hi.1
              ∙ sym (entry_at-present mem q k j rest h)
        ]
  ]
