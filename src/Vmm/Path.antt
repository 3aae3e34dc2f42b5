-- ===== src/Vmm/Path.antt =====
-- The last step of src/vmm.rs: writing an entry of a last-level table changes the translation of one
-- page and no other.
use sysrust.Common.{
  store-miss, ℕ, ◌+◌, ◌*◌, ◌≡◌, ◌≢◌, ◌<◌, List, [], ◌∷◌, some, length, Table, store, arith, refl,
  ap, ◌∙◌, sym, inl, inr, Bool-cases,
}
use sysrust.Vmm.{address_of}
use sysrust.Vmm.Tree.{
  Places, IsTree, entry_at, entry_at-present, entry_at-stopped, is_table, stopped, AreIndices,
  joined, word_apart,
}

module _ (mem : Table ℕ) (root : ℕ) (place : Places) (tree : IsTree mem root place) (pt d e : ℕ)
    (π : List ℕ) (at_pt : place pt ≡ some π) (last : length π ≡ 3) (small : d < 512) where
  abbrev pub written : Table ℕ
  written = store mem (pt + d * 8) e

  -- The entries of every table above the last level stay.
  pub written-above :
      (q k : ℕ) (ρ : List ℕ)
      → place q ≡ some ρ
      → length ρ < 3
      → k < 512
      → written (q + k * 8) ≡ mem (q + k * 8)
  written-above q k ρ at_q above hk = store-miss mem (pt + d * 8) (q + k * 8) e (λ same.
      let page =
        (word_apart q pt k d (tree.aligned q ρ at_q).0 (tree.aligned pt π at_pt).0 hk small
          same).0 in
      let paths : ρ ≡ π = cc (at_q, at_pt, ap place page) in
      omega (arith, above, last, ap (λ l. length l) paths))

  pub written-IsTree : IsTree written root place
  written-IsTree = record {
    at_root = tree.at_root;
    aligned = tree.aligned;
    linked = λ q ρ k at_q above hk here.
        let same = written-above q k ρ at_q above hk in
        ap (λ x. place (address_of x)) same
        ∙ tree.linked q ρ k at_q above hk (ap is_table (sym same) ∙ here);
  }

  -- A place whose path is not the written one.
  pub written-entry_at-other :
      (q : ℕ) (ρ is : List ℕ)
      → place q ≡ some ρ
      → length ρ + length is ≡ 4
      → AreIndices is
      → joined is ρ ≢ d ∷ π
      → entry_at written q is ≡ entry_at mem q is
  written-entry_at-other q ρ [] at_q full hi other = refl
  written-entry_at-other q ρ (k ∷ []) at_q full hi other = ap some (
      store-miss mem (pt + d * 8) (q + k * 8) e (λ same.
        let (page, index) =
          word_apart q pt k d (tree.aligned q ρ at_q).0 (tree.aligned pt π at_pt).0 hi.0 small
            same in
        let paths : ρ ≡ π = cc (at_q, at_pt, ap place page) in other (cc (paths, index))))
  written-entry_at-other q ρ (k ∷ j ∷ rest) at_q full hi other =
      let same = written-above q k ρ at_q (omega (arith, full)) hi.0 in
      elim (Bool-cases (is_table (mem (q + k * 8)))) [
        | inr h ↦
            entry_at-stopped written q k j rest (ap is_table same ∙ h)
            ∙ ap stopped same
            ∙ sym (entry_at-stopped mem q k j rest h)
        | inl h ↦
            let under = tree.linked q ρ k at_q (omega (arith, full)) hi.0 h in
            entry_at-present written q k j rest (ap is_table same ∙ h)
            ∙ ap (λ x. entry_at written (address_of x) (j ∷ rest)) same
            ∙ written-entry_at-other (address_of (mem (q + k * 8))) (k ∷ ρ) (j ∷ rest) under
                (omega (arith, full)) hi.1 other
            ∙ sym (entry_at-present mem q k j rest h)
      ]
