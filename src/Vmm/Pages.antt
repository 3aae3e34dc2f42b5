-- ===== src/Vmm/Pages.antt =====
-- `map_page`, `unmap_page` and `get_physical` of src/vmm.rs as operations on the pages of the
-- 48-bit address space.
use sysrust.Common.{
  store-hit, ℕ, ◌+◌, ◌*◌, ◌/◌, ◌%◌, ◌^◌, ◌≡◌, ◌≢◌, none, ap, List, [], ◌∷◌, true, false, some,
  if◌then◌else◌, Table, store, arith, refl, ◌∙◌, ◌==◌, ◌⊎◌, inl, inr, Bool-cases,
}
use sysrust.Vmm.{
  is_present, address_of, Vmm, walk_readonly, unmap_page, get_physical, pml4_index, pdpt_index,
  pd_index, pt_index,
}
use sysrust.Vmm.Tree.{Places, IsTree, entry_at, AreIndices, is_table, not_table, entry_at-below}
use sysrust.Vmm.Path.{written-above}

abbrev pub page_of : (virt : ℕ) → ℕ
page_of virt = virt / 2 ^ 12 % 2 ^ 36

abbrev pub indices : (virt : ℕ) → List ℕ
indices virt = pml4_index virt ∷ pdpt_index virt ∷ pd_index virt ∷ pt_index virt ∷ []

pub indices-AreIndices : (virt : ℕ) → AreIndices (indices virt)
indices-AreIndices virt = (omega arith, (omega arith, (omega arith, (omega arith, tt))))

-- Pages of one number have the same indices, and only they.
pub same_page :
    (v w : ℕ)
    → page_of v ≡ page_of w
    → (pml4_index v ≡ pml4_index w)
      × (pdpt_index v ≡ pdpt_index w)
      × (pd_index v ≡ pd_index w)
      × (pt_index v ≡ pt_index w)
same_page v w e = (omega (arith, e), omega (arith, e), omega (arith, e), omega (arith, e))

pub page_of-indices :
    (v w : ℕ)
    → pml4_index v ≡ pml4_index w
    → pdpt_index v ≡ pdpt_index w
    → pd_index v ≡ pd_index w
    → pt_index v ≡ pt_index w
    → page_of v ≡ page_of w
page_of-indices v w a b c d = omega (arith, a, b, c, d)

-- What an entry translates to.
abbrev pub translated : (entry virt : ℕ) → ℕ
translated entry virt = if is_present entry then address_of entry + virt % 4096 else 0

-- The entry at `i` of the table `p` leads to the table `q`.
abbrev pub IsLink : Table ℕ → (p i q : ℕ) → Type 0
IsLink mem p i q = (is_table (mem (p + i * 8)) ≡ true) × (address_of (mem (p + i * 8)) ≡ q)

pub IsLink-kept :
    (mem mem' : Table ℕ) (p i q : ℕ)
    → mem' (p + i * 8) ≡ mem (p + i * 8)
    → IsLink mem p i q
    → IsLink mem' p i q
IsLink-kept mem mem' p i q same h = rw same h

followed :
    (mem : Table ℕ) (root virt pdpt pd pt : ℕ)
    → IsLink mem root (pml4_index virt) pdpt
    → IsLink mem pdpt (pdpt_index virt) pd
    → IsLink mem pd (pd_index virt) pt
    → entry_at mem root (indices virt) ≡ some (mem (pt + pt_index virt * 8))
followed mem root virt pdpt pd pt l1 l2 l3 = rw (l1.0, l1.1, l2.0, l2.1, l3.0, l3.1) refl

-- After a write of the page's entry, the indices lead to the value written.
pub followed_written :
    (mem : Table ℕ) (root : ℕ) (place : Places) (virt pdpt pd pt e : ℕ)
    → IsTree mem root place
    → place pdpt ≡ some (pml4_index virt ∷ [])
    → place pd ≡ some (pdpt_index virt ∷ pml4_index virt ∷ [])
    → place pt ≡ some (pd_index virt ∷ pdpt_index virt ∷ pml4_index virt ∷ [])
    → IsLink mem root (pml4_index virt) pdpt
    → IsLink mem pdpt (pdpt_index virt) pd
    → IsLink mem pd (pd_index virt) pt
    → entry_at (store mem (pt + pt_index virt * 8) e) root (indices virt) ≡ some e
followed_written mem root place virt pdpt pd pt e tree at1 at2 at3 l1 l2 l3 =
    let π = pd_index virt ∷ pdpt_index virt ∷ pml4_index virt ∷ [] in
    let mem'' = store mem (pt + pt_index virt * 8) e in
    let above = written-above mem root place tree pt (pt_index virt) e π at3 refl (omega arith) in
    let m1 =
      IsLink-kept mem mem'' root (pml4_index virt) pdpt
        (above root (pml4_index virt) [] tree.at_root (omega arith) (omega arith)) l1 in
    let m2 =
      IsLink-kept mem mem'' pdpt (pdpt_index virt) pd
        (above pdpt (pdpt_index virt) (pml4_index virt ∷ []) at1 (omega arith) (omega arith)) l2 in
    let m3 =
      IsLink-kept mem mem'' pd (pd_index virt) pt
        (above pd (pd_index virt) (pdpt_index virt ∷ pml4_index virt ∷ []) at2 (omega arith)
          (omega arith))
        l3 in
    followed mem'' root virt pdpt pd pt m1 m2 m3
    ∙ ap some (store-hit mem (pt + pt_index virt * 8) e)

-- The walk without allocation ends at a last-level table, and both operations work on its entry.
pub record Descent (virt : ℕ) (s : Vmm) (place : Places) : Type 0 where
  pub pdpt : ℕ
  pub pd : ℕ
  pub table : ℕ
  pub at_pdpt : place pdpt ≡ some (pml4_index virt ∷ [])
  pub at_pd : place pd ≡ some (pdpt_index virt ∷ pml4_index virt ∷ [])
  pub to_pdpt : IsLink s.mem s.pml4 (pml4_index virt) pdpt
  pub to_pd : IsLink s.mem pdpt (pdpt_index virt) pd
  pub to_table : IsLink s.mem pd (pd_index virt) table
  pub at : place table ≡ some (pd_index virt ∷ pdpt_index virt ∷ pml4_index virt ∷ [])
  pub entry : entry_at s.mem s.pml4 (indices virt) ≡ some (s.mem (table + pt_index virt * 8))
  pub gets : get_physical virt s ≡ translated (s.mem (table + pt_index virt * 8)) virt
  pub unmaps : unmap_page virt s ≡ record s { mem = store s.mem (table + pt_index virt * 8) 0 }

-- No large page is on the way to the address.
abbrev pub IsSmall : ℕ → Vmm → Type 0
IsSmall virt s = entry_at s.mem s.pml4 (indices virt) ≢ none

module _ (virt : ℕ) (s : Vmm) (place : Places) (tree : IsTree s.mem s.pml4 place)
    (small : IsSmall virt s) where
  -- A table on the way is missing.
  abbrev pub IsMissing : Type 0
  IsMissing =
      (entry_at s.mem s.pml4 (indices virt) ≡ some 0)
      × (get_physical virt s ≡ 0)
      × (unmap_page virt s ≡ s)

  at_nonzero : (p : ℕ) (π : List ℕ) → place p ≡ some π → (p == 0) ≡ false
  at_nonzero p π h = ground (arith, (tree.aligned p π h).1)

  pub descend : IsMissing ⊎ Descent virt s place
  unfolding get_physical unmap_page
  descend =
      let e1 = s.mem (s.pml4 + pml4_index virt * 8) in
      let e2 = s.mem (address_of e1 + pdpt_index virt * 8) in
      let e3 = s.mem (address_of e2 + pd_index virt * 8) in
      elim (Bool-cases (is_present e1)) [
        | inr h ↦ inl (
          rw (not_table e1 h, h) refl,
          rw (get_physical, walk_readonly, h) refl,
          rw (unmap_page, walk_readonly, h) refl,
        )
        | inl h1 ↦
            let (t1, small1) =
              entry_at-below s.mem s.pml4 (pml4_index virt) (pdpt_index virt)
                (pd_index virt ∷ pt_index virt ∷ []) small h1 in
            let at1 =
              tree.linked s.pml4 [] (pml4_index virt) tree.at_root (omega arith) (omega arith) t1 in
            let n1 = at_nonzero (address_of e1) (pml4_index virt ∷ []) at1 in
            elim (Bool-cases (is_present e2)) [
              | inr h ↦ inl (
                rw (t1, not_table e2 h, h) refl,
                rw (get_physical, walk_readonly, h1, n1, h) refl,
                rw (unmap_page, walk_readonly, h1, n1, h) refl,
              )
              | inl h2 ↦
                  let (t2, small2) =
                    entry_at-below s.mem (address_of e1) (pdpt_index virt) (pd_index virt)
                      (pt_index virt ∷ []) small1 h2 in
                  let at2 =
                    tree.linked (address_of e1) (pml4_index virt ∷ []) (pdpt_index virt) at1
                      (omega arith) (omega arith) t2 in
                  let n2 =
                    at_nonzero (address_of e2) (pdpt_index virt ∷ pml4_index virt ∷ []) at2 in
                  elim (Bool-cases (is_present e3)) [
                    | inr h ↦ inl (
                      rw (t1, t2, not_table e3 h, h) refl,
                      rw (get_physical, walk_readonly, h1, n1, h2, n2, h) refl,
                      rw (unmap_page, walk_readonly, h1, n1, h2, n2, h) refl,
                    )
                    | inl h3 ↦
                        let (t3, small3) =
                          entry_at-below s.mem (address_of e2) (pd_index virt) (pt_index virt) []
                            small2 h3 in
                        let at3 =
                          tree.linked (address_of e2) (pdpt_index virt ∷ pml4_index virt ∷ [])
                            (pd_index virt) at2 (omega arith) (omega arith) t3 in
                        let n3 =
                          at_nonzero (address_of e3)
                            (pd_index virt ∷ pdpt_index virt ∷ pml4_index virt ∷ []) at3 in
                        inr (record {
                          pdpt = address_of e1;
                          pd = address_of e2;
                          table = address_of e3;
                          at_pdpt = at1;
                          at_pd = at2;
                          to_pdpt = (t1, refl);
                          to_pd = (t2, refl);
                          to_table = (t3, refl);
                          at = at3;
                          entry = rw (t1, t2, t3) refl;
                          gets = rw (get_physical, walk_readonly, h1, n1, h2, n2, h3, n3) refl;
                          unmaps = rw (unmap_page, walk_readonly, h1, n1, h2, n2, h3, n3) refl;
                        })
                  ]
            ]
      ]
