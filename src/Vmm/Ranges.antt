-- ===== src/Vmm/Ranges.antt =====
-- `map_range` and `unmap_page` of src/vmm.rs, page by page.
use sysrust.Common.{
  ℕ, zero, suc, ◌+◌, ◌-◌, ◌*◌, ◌/◌, ◌%◌, ◌^◌, true, ◌≡◌, ◌≢◌, ◌≤◌, ◌<◌, [], ◌∷◌, if◌then◌else◌,
  store, arith, refl, ap, ◌∙◌, sym, ◌==◌, ◌⊎◌, inl, inr, Bool-cases, ==→eq,
}
use sysrust.Vmm.{
  Vmm, Frames, map_page, map_loop, map_range, unmap_page, get_physical, vmm_page_size, pml4_index,
  pdpt_index, pd_index, pt_index, address_of,
}
use sysrust.Vmm.Tree.{Places, entry_at, IsTree}
use sysrust.Vmm.Path.{written-IsTree, written-entry_at-other}
use sysrust.Vmm.Supply.{Supply}
use sysrust.Vmm.Mapping.{IsReady}
use sysrust.Vmm.Pages.{page_of, indices, indices-AreIndices, IsSmall, descend, followed_written}
use sysrust.Vmm.Outcome.{map_page-MapOutcome}
use sysrust.Vmm.Translation.{
  get_physical-some, same_translation, same_indices, other_path, page_eq, page_ne,
}
use sysrust.Vmm.Exhausted.{map_loop_stays_empty}

-- For page tables that form a tree, with large pages as leaves, unmap_page of an address under no
-- large page leaves one, no address of the page is translated, and every other address under no
-- large page is translated as before.
pub unmap_page-get_physical :
    (virt : ℕ) (s : Vmm) (place : Places)
    → IsTree s.mem s.pml4 place
    → IsSmall virt s
    → IsTree (unmap_page virt s).mem (unmap_page virt s).pml4 place
      × ((v : ℕ)
          → IsSmall v s
          → get_physical v (unmap_page virt s)
            ≡ (if page_of v == page_of virt then 0 else get_physical v s))
unmap_page-get_physical virt s place tree small = elim (descend virt s place tree small) [
  | inl missing ↦ rw (missing.2) (
    tree,
    λ v sm. elim (Bool-cases (page_of v == page_of virt)) [
      | inr other ↦ rw other refl
      | inl same ↦ rw same (
          get_physical-some v 0 s place tree
            (ap (entry_at s.mem s.pml4) (same_indices v virt (==→eq _ _ same)) ∙ missing.0))
    ],
  )
  | inr d ↦
      let π = pd_index virt ∷ pdpt_index virt ∷ pml4_index virt ∷ [] in
      let tree' =
        written-IsTree s.mem s.pml4 place tree d.table (pt_index virt) 0 π d.at refl
          (omega arith) in
      let mem' = store s.mem (d.table + pt_index virt * 8) 0 in
      let s' : Vmm = record s { mem = mem' } in
      rw (d.unmaps) (
        tree',
        λ v sm. elim (Bool-cases (page_of v == page_of virt)) [
          | inr other ↦ rw other (
              same_translation v s s' place place tree tree' sm (
                written-entry_at-other s.mem s.pml4 place tree d.table (pt_index virt) 0 π d.at refl
                  (omega arith) s.pml4 [] (indices v) tree.at_root refl (indices-AreIndices v)
                  (other_path v virt (page_ne _ _ other))))
          | inl same ↦ rw same (
              get_physical-some v 0 s' place tree' (
                ap (entry_at mem' s.pml4) (same_indices v virt (==→eq _ _ same))
                ∙ followed_written s.mem s.pml4 place virt d.pdpt d.pd d.table 0 tree d.at_pdpt
                    d.at_pd d.at d.to_pdpt d.to_pd d.to_table))
        ],
      )
]

abbrev pub virt_of : (virt_start i : ℕ) → ℕ
virt_of virt_start i = (virt_start + i * vmm_page_size) % 2 ^ 64

abbrev pub frame_of : (phys_start i : ℕ) → ℕ
frame_of phys_start i = address_of ((phys_start + i * vmm_page_size) % 2 ^ 64)

-- Different pages of a range below 2^48 bytes are different pages of the address space.
virt_of-apart :
    (virt_start i j : ℕ)
    → i < j
    → j < i + 2 ^ 36
    → page_of (virt_of virt_start i) ≢ page_of (virt_of virt_start j)
virt_of-apart virt_start i j less near e = omega (arith, less, near, e)

module _ (frames : Frames) (supply : Supply frames) where
  open frames use {State, alloc_page}

  -- The translation of `v` is the one of a page of the range.
  pub record Translated (virt_start phys_start i n v : ℕ) (s' : Vmm) : Type 0 where
    pub index : ℕ
    pub from : i ≤ index
    pub below : index < i + n
    pub page : page_of v ≡ page_of (virt_of virt_start index)
    pub address : get_physical v s' ≡ frame_of phys_start index + v % 4096

  -- Nothing outside the range changes; and unless the allocator has run out of pages, the whole
  -- range is mapped.
  pub record RangeOutcome (virt_start phys_start i n : ℕ) (s s' : Vmm) (st' : State) : Type 0 where
    pub place : Places
    pub ready : IsReady frames supply s'.mem s'.pml4 place st'
    pub pages :
        (v : ℕ)
        → IsSmall v s
        → (get_physical v s' ≡ get_physical v s) ⊎ Translated virt_start phys_start i n v s'
    pub mapped :
        (alloc_page st').0 ≢ 0
        → (v k : ℕ) → IsSmall v s
        → i ≤ k
        → k < i + n
        → page_of v ≡ page_of (virt_of virt_start k)
        → get_physical v s' ≡ frame_of phys_start k + v % 4096

  map_loop-RangeOutcome :
      (n i virt_start phys_start flags : ℕ) (s : Vmm) (place : Places) (st : State)
      → IsReady frames supply s.mem s.pml4 place st
      → flags % 2 ≡ 1
      → n < 2 ^ 36
      → ((k : ℕ) → i ≤ k → k < i + n → IsSmall (virt_of virt_start k) s)
      → RangeOutcome virt_start phys_start i n s
          (map_loop frames n i virt_start phys_start flags s st).0
          (map_loop frames n i virt_start phys_start flags s st).1
  unfolding map_loop
  map_loop-RangeOutcome zero i virt_start phys_start flags s place st v odd short sm = record {
    place = place;
    ready = v;
    pages = λ w sw. inl refl;
    mapped = λ left w k sw from below. absurd (omega (arith, from, below));
  }
  map_loop-RangeOutcome (suc n) i virt_start phys_start flags s place st v odd short sm =
      let virt = virt_of virt_start i in
      let phys = (phys_start + i * vmm_page_size) % 2 ^ 64 in
      let (s1, st1) = map_page frames virt phys flags s st in
      let o =
        map_page-MapOutcome frames supply s place st v virt phys flags
          (sm i (omega arith) (omega arith)) odd in
      let rest =
        map_loop-RangeOutcome n (i + 1) virt_start phys_start flags s1 o.place st1 o.ready odd
          (omega (arith, short))
          (λ k from below.
            o.small (virt_of virt_start k) (sm k (omega (arith, from)) (omega (arith, below)))) in
      record {
        place = rest.place;
        ready = rest.ready;
        pages = λ w sw. elim (rest.pages w (o.small w sw)) [
          | inr t ↦ inr (record {
            index = t.index;
            from = omega (arith, t.from);
            below = omega (arith, t.below);
            page = t.page;
            address = t.address;
          })
          | inl later ↦ elim o.pages [
            | inl (empty, same) ↦ inl (later ∙ same w sw)
            | inr mapped ↦ elim (Bool-cases (page_of w == page_of virt)) [
              | inr other ↦ inl (later ∙ rw other at (mapped w sw))
              | inl hit ↦ inr (record {
                index = i;
                from = omega arith;
                below = omega arith;
                page = ==→eq _ _ hit;
                address = later ∙ rw hit at (mapped w sw);
              })
            ]
          ]
        ];
        mapped = λ left w k sw from below page. elim (Bool-cases (i == k)) [
          | inr later ↦
              rest.mapped left w k (o.small w sw) (ground arith) (omega (arith, below)) page
          | inl now ↦
              let e = ==→eq i k now in
              elim o.pages [
                | inl (empty, same) ↦ absurd (
                    left (
                      map_loop_stays_empty frames supply n (i + 1) virt_start phys_start flags s1
                        st1 o.ready.good empty))
                | inr mapped ↦ elim (rest.pages w (o.small w sw)) [
                  | inr t ↦ absurd (
                      virt_of-apart virt_start i t.index (omega (arith, t.from))
                        (omega (arith, t.below, short))
                        (ap (λ j. page_of (virt_of virt_start j)) e ∙ sym page ∙ t.page))
                  | inl same ↦
                      let hit : (page_of w == page_of virt) ≡ true =
                        page_eq (page_of w) (page_of virt)
                          (page ∙ ap (λ j. page_of (virt_of virt_start j)) (sym e)) in
                      same ∙ rw hit at (mapped w sw) ∙ ap (λ j. frame_of phys_start j + w % 4096) e
                ]
              ]
        ];
      }

  -- Under the same conditions, for a size below 2^48 - 4096 and no large page on the way to a page
  -- of the range, map_range leaves such tables and such an allocator. Unless the allocator then
  -- has no page left, every address of a page of the range, which the size rounds up to, is
  -- translated to the frame as far from phys_start as the page is from virt_start, plus its
  -- offset. Every address with no large page on the way to it is translated so, or as before.
  pub map_range-RangeOutcome :
      (virt_start phys_start size flags : ℕ) (s : Vmm) (place : Places) (st : State)
      → IsReady frames supply s.mem s.pml4 place st
      → flags % 2 ≡ 1
      → size + 4096 < 2 ^ 48
      → ((k : ℕ) → k < (size + 4095) / 4096 → IsSmall (virt_of virt_start k) s)
      → RangeOutcome virt_start phys_start 0
          ((size + 4095) / 4096)
          s
          (map_range frames virt_start phys_start size flags s st).0
          (map_range frames virt_start phys_start size flags s st).1
  unfolding map_range
  map_range-RangeOutcome virt_start phys_start size flags s place st v odd small sm =
      let pages : (size + vmm_page_size - 1) % 2 ^ 64 / vmm_page_size ≡ (size + 4095) / 4096 =
        omega arith in
      rw (map_range, pages)
        (map_loop-RangeOutcome ((size + 4095) / 4096) 0 virt_start phys_start flags s place st v odd
          (omega arith) (λ k from below. sm k (omega (arith, below))))
