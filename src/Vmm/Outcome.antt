-- ===== src/Vmm/Outcome.antt =====
-- What `map_page`, `map_range` and `unmap_page` of src/vmm.rs do to the translation.
use sysrust.Common.{
  ℕ, ◌+◌, ◌*◌, ◌%◌, ◌^◌, ◌≡◌, ◌≢◌, ◌<◌, List, [], ◌∷◌, false, some, if◌then◌else◌, Table, store,
  arith, refl, ap, ◌∙◌, sym, ◌==◌, ◌⊎◌, inl, inr, Bool-cases, ==→eq,
}
use sysrust.Vmm.{
  address_of, Vmm, Frames, walk_or_alloc, map_page, get_physical, pml4_index, pdpt_index, pd_index,
  pt_index,
}
use sysrust.Vmm.Tree.{Places, entry_at, entry_at-below, table-present}
use sysrust.Vmm.Path.{written, written-IsTree, written-entry_at-other}
use sysrust.Vmm.Supply.{Supply}
use sysrust.Vmm.Mapping.{IsReady, Extends, Extends-trans, walk_or_alloc-Reached}
use sysrust.Vmm.Pages.{
  page_of, indices, indices-AreIndices, IsLink, IsLink-kept, followed_written, IsSmall,
}
use sysrust.Vmm.Translation.{
  get_physical-some, same_translation, page_ne, other_path, same_indices, translated-entry,
  small_under,
}

nonzero : (q : ℕ) → 0 < q → (q == 0) ≡ false
nonzero q h = ground arith

module _ (frames : Frames) (supply : Supply frames) where
  open frames use {State, alloc_page}

  -- The translation after an attempt to map one page.
  pub record MapOutcome (virt phys : ℕ) (s s' : Vmm) (st' : State) : Type 0 where
    pub place : Places
    pub ready : IsReady frames supply s'.mem s'.pml4 place st'
    pub small : (v : ℕ) → IsSmall v s → IsSmall v s'
    pub pages :
        (((alloc_page st').0 ≡ 0) × ((v : ℕ) → IsSmall v s → get_physical v s' ≡ get_physical v s))
        ⊎ ((v : ℕ)
            → IsSmall v s
            → get_physical v s' ≡ (
                if page_of v == page_of virt then address_of phys + v % 4096 else get_physical v s))

  module _ (s : Vmm) (place0 : Places) (st : State)
      (v0 : IsReady frames supply s.mem s.pml4 place0 st) where
    unchanged :
        (mem' : Table ℕ) (place' : Places) (st' : State)
        → Extends frames supply s.mem s.pml4 place0 mem' place' st'
        → (v : ℕ) → IsSmall v s
        → get_physical v (record s { mem = mem' }) ≡ get_physical v s
    unchanged mem' place' st' x v sm =
        same_translation v s (record s { mem = mem' }) place0 place' v0.tree x.ready.tree sm
          (x.entries (indices v) refl (indices-AreIndices v))

    unchanged-IsSmall :
        (mem' : Table ℕ) (place' : Places) (st' : State)
        → Extends frames supply s.mem s.pml4 place0 mem' place' st'
        → (v : ℕ) → IsSmall v s
        → IsSmall v (record s { mem = mem' })
    unchanged-IsSmall mem' place' st' x v sm z =
        sm (sym (x.entries (indices v) refl (indices-AreIndices v)) ∙ z)

    no_page :
        (virt phys : ℕ) (mem' : Table ℕ) (place' : Places) (st' : State)
        → Extends frames supply s.mem s.pml4 place0 mem' place' st'
        → (alloc_page st').0 ≡ 0
        → MapOutcome virt phys s (record s { mem = mem' }) st'
    no_page virt phys mem' place' st' x empty = record {
      place = place';
      ready = x.ready;
      small = unchanged-IsSmall mem' place' st' x;
      pages = inl (empty, unchanged mem' place' st' x);
    }

    -- The entry of the page is written in the last-level table that the walk reached.
    entry_written :
        (virt phys flags pdpt pd pt : ℕ) (mem' : Table ℕ) (place' : Places) (st' : State)
        → flags % 2 ≡ 1
        → Extends frames supply s.mem s.pml4 place0 mem' place' st'
        → place' pdpt ≡ some (pml4_index virt ∷ [])
        → place' pd ≡ some (pdpt_index virt ∷ pml4_index virt ∷ [])
        → place' pt ≡ some (pd_index virt ∷ pdpt_index virt ∷ pml4_index virt ∷ [])
        → IsLink mem' s.pml4 (pml4_index virt) pdpt
        → IsLink mem' pdpt (pdpt_index virt) pd
        → IsLink mem' pd (pd_index virt) pt
        → MapOutcome virt phys s
            (record s {
              mem = store mem' (pt + pt_index virt * 8) (address_of phys + flags % 2 ^ 12);
            })
            st'
    entry_written virt phys flags pdpt pd pt mem' place' st' odd x at1 at2 at3 l1 l2 l3 =
        let entry = address_of phys + flags % 2 ^ 12 in
        let π = pd_index virt ∷ pdpt_index virt ∷ pml4_index virt ∷ [] in
        let tree = x.ready.tree in
        let mem'' =
          written mem' s.pml4 place' tree pt (pt_index virt) entry π at3 refl (omega arith) in
        let tree'' =
          written-IsTree mem' s.pml4 place' tree pt (pt_index virt) entry π at3 refl
            (omega arith) in
        let s'' : Vmm = record s { mem = mem'' } in
        let hit : (v : ℕ)
            → page_of v ≡ page_of virt
            → entry_at mem'' s.pml4 (indices v) ≡ some entry =
          λ v e.
            ap (entry_at mem'' s.pml4) (same_indices v virt e)
            ∙ followed_written mem' s.pml4 place' virt pdpt pd pt entry tree at1 at2 at3 l1 l2 l3 in
        let missed : (v : ℕ)
            → page_of v ≢ page_of virt
            → entry_at mem'' s.pml4 (indices v) ≡ entry_at s.mem s.pml4 (indices v) =
          λ v ne.
            written-entry_at-other mem' s.pml4 place' tree pt (pt_index virt) entry π at3 refl
              (omega arith) s.pml4 [] (indices v) tree.at_root refl (indices-AreIndices v)
              (other_path v virt ne)
            ∙ x.entries (indices v) refl (indices-AreIndices v) in
        record {
          place = place';
          ready = record { tree = tree''; good = x.ready.good; apart = x.ready.apart };
          small = λ v sm. elim (Bool-cases (page_of v == page_of virt)) [
            | inl same ↦ λ z. absurd (cc (z, hit v (==→eq _ _ same)))
            | inr other ↦ λ z. sm (sym (missed v (page_ne _ _ other)) ∙ z)
          ];
          pages = inr (λ v sm. elim (Bool-cases (page_of v == page_of virt)) [
            | inl same ↦
                let e = ==→eq (page_of v) (page_of virt) same in
                rw same (
                  get_physical-some v entry s'' place' tree'' (hit v e)
                  ∙ translated-entry phys flags v odd)
            | inr other ↦ rw other (
                same_translation v s s'' place0 place' v0.tree tree'' sm
                  (missed v (page_ne _ _ other)))
          ]);
        }

    -- A link stays through the next levels.
    IsLink-extended :
        (mem1 : Table ℕ) (place1 : Places) (mem2 : Table ℕ) (place2 : Places) (st2 : State)
        (p i q : ℕ) (π : List ℕ)
        → Extends frames supply mem1 s.pml4 place1 mem2 place2 st2
        → place1 p ≡ some π
        → i < 512
        → IsLink mem1 p i q
        → IsLink mem2 p i q
    IsLink-extended mem1 place1 mem2 place2 st2 p i q π x at small l =
        IsLink-kept mem1 mem2 p i q (x.links p i π at small (table-present (mem1 (p + i * 8)) l.0))
          l

    -- For page tables that form a tree, with large pages as leaves, apart from the free pages, a
    -- page allocator that keeps to its contract, an address with no large page on the way to it,
    -- and flags with the present bit, map_page leaves such tables and such an allocator, and no
    -- large page on the way to an address where there was none. For these addresses, either the
    -- allocator then has no page left and each is translated as before, or those of the page are
    -- translated to the frame plus their offset and every other one as before.
    pub map_page-MapOutcome :
        (virt phys flags : ℕ)
        → IsSmall virt s
        → flags % 2 ≡ 1
        → MapOutcome virt phys s
            (map_page frames virt phys flags s st).0
            (map_page frames virt phys flags s st).1
    unfolding map_page
    map_page-MapOutcome virt phys flags sm odd =
        let r1 =
          walk_or_alloc-Reached frames supply s.mem s.pml4 place0 st v0 s.pml4 (pml4_index virt) []
            v0.tree.at_root (omega arith) (omega arith)
            (λ h.
              (entry_at-below s.mem s.pml4 (pml4_index virt) (pdpt_index virt)
                (pd_index virt ∷ pt_index virt ∷ []) sm h).0) in
        let (pdpt, mem1, st1) = walk_or_alloc frames s.pml4 (pml4_index virt) s.mem st in
        let x1 = r1.extends in
        elim r1.result [
          | inl (z, empty) ↦ rw (map_page, z) (no_page virt phys mem1 r1.place' st1 x1 empty)
          | inr (pos1, at1, here1, to1) ↦
              let n1 = nonzero pdpt pos1 in
              let small1 =
                small_under mem1 s.pml4 (pml4_index virt) pdpt (pdpt_index virt)
                  (pd_index virt ∷ pt_index virt ∷ []) (here1, to1)
                  (unchanged-IsSmall mem1 r1.place' st1 x1 virt sm) in
              let r2 =
                walk_or_alloc-Reached frames supply mem1 s.pml4 r1.place' st1 x1.ready pdpt
                  (pdpt_index virt) (pml4_index virt ∷ []) at1 (omega arith) (omega arith)
                  (λ h.
                    (entry_at-below mem1 pdpt (pdpt_index virt) (pd_index virt) (pt_index virt ∷ [])
                      small1 h).0) in
              let (pd, mem2, st2) = walk_or_alloc frames pdpt (pdpt_index virt) mem1 st1 in
              let x2 =
                Extends-trans frames supply s.mem s.pml4 place0 mem1 r1.place' st1 mem2 r2.place'
                  st2 x1 r2.extends in
              elim r2.result [
                | inl (z, empty) ↦
                    rw (map_page, n1, z) (no_page virt phys mem2 r2.place' st2 x2 empty)
                | inr (pos2, at2, here2, to2) ↦
                    let n2 = nonzero pd pos2 in
                    let l1 =
                      IsLink-extended mem1 r1.place' mem2 r2.place' st2 s.pml4 (pml4_index virt)
                        pdpt [] r2.extends x1.ready.tree.at_root (omega arith) (here1, to1) in
                    let small2 =
                      small_under mem2 pdpt (pdpt_index virt) pd (pd_index virt)
                        (pt_index virt ∷ []) (here2, to2)
                        (small_under mem2 s.pml4 (pml4_index virt) pdpt (pdpt_index virt)
                          (pd_index virt ∷ pt_index virt ∷ []) l1
                          (unchanged-IsSmall mem2 r2.place' st2 x2 virt sm)) in
                    let r3 =
                      walk_or_alloc-Reached frames supply mem2 s.pml4 r2.place' st2 x2.ready pd
                        (pd_index virt) (pdpt_index virt ∷ pml4_index virt ∷ []) at2 (omega arith)
                        (omega arith)
                        (λ h.
                          (entry_at-below mem2 pd (pd_index virt) (pt_index virt) [] small2 h).0) in
                    let (pt, mem3, st3) = walk_or_alloc frames pd (pd_index virt) mem2 st2 in
                    let x3 =
                      Extends-trans frames supply s.mem s.pml4 place0 mem2 r2.place' st2 mem3
                        r3.place' st3 x2 r3.extends in
                    elim r3.result [
                      | inl (z, empty) ↦
                          rw (map_page, n1, n2, z) (no_page virt phys mem3 r3.place' st3 x3 empty)
                      | inr (pos3, at3, here3, to3) ↦
                          let n3 = nonzero pt pos3 in
                          let l1' =
                            IsLink-extended mem2 r2.place' mem3 r3.place' st3 s.pml4
                              (pml4_index virt) pdpt [] r3.extends x2.ready.tree.at_root
                              (omega arith) l1 in
                          let l2' =
                            IsLink-extended mem2 r2.place' mem3 r3.place' st3 pdpt (pdpt_index virt)
                              pd (pml4_index virt ∷ []) r3.extends
                              (r2.extends.places pdpt (pml4_index virt ∷ []) at1) (omega arith)
                              (here2, to2) in
                          let at1' =
                            r3.extends.places pdpt (pml4_index virt ∷ [])
                              (r2.extends.places pdpt (pml4_index virt ∷ []) at1) in
                          let at2' =
                            r3.extends.places pd (pdpt_index virt ∷ pml4_index virt ∷ []) at2 in
                          rw (map_page, n1, n2, n3)
                            (entry_written virt phys flags pdpt pd pt mem3 r3.place' st3 odd x3 at1'
                              at2' at3 l1' l2' (here3, to3))
                    ]
              ]
        ]
