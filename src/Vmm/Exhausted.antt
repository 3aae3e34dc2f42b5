-- ===== src/Vmm/Exhausted.antt =====
-- Once the allocator of src/vmm.rs has no page left, it has none after any number of map_page.
use sysrust.Common.{
  ℕ, zero, suc, ◌+◌, ◌*◌, ◌%◌, ◌^◌, ◌≡◌, ◌==◌, true, Table, arith, refl, inl, inr, Bool-cases, ap,
  ◌∙◌,
}
use sysrust.Vmm.{
  Vmm, Frames, is_present, walk_or_alloc, map_page, map_loop, vmm_page_size, pml4_index, pdpt_index,
  pd_index,
}
use sysrust.Vmm.Supply.{Supply}

module _ (frames : Frames) (supply : Supply frames) where
  open frames use {State, alloc_page}
  open supply use {IsGood, gives}

  -- An allocator in a good state without a page.
  abbrev pub IsEmpty : State → Type 0
  IsEmpty st = IsGood st × ((alloc_page st).0 ≡ 0)

  alloc_page-IsEmpty : (st : State) → IsEmpty st → IsEmpty (alloc_page st).1
  alloc_page-IsEmpty st e =
      let (good, given) = gives st e.0 in
      elim given [
        | inl (none_left, same) ↦ (good, ap (λ s. (alloc_page s).0) same ∙ e.1)
        | inr f ↦ absurd (omega (arith, f.positive, e.1))
      ]

  walk_or_alloc-IsEmpty :
      (p i : ℕ) (mem : Table ℕ) (st : State)
      → IsEmpty st
      → IsEmpty (walk_or_alloc frames p i mem st).2
  unfolding walk_or_alloc
  walk_or_alloc-IsEmpty p i mem st e =
      let z : ((alloc_page st).0 == 0) ≡ true = rw (e.1) refl in
      elim (Bool-cases (is_present (mem (p + i * 8)))) [
        | inl here ↦ rw (walk_or_alloc, here) e
        | inr missing ↦ rw (walk_or_alloc, missing, z) (alloc_page-IsEmpty st e)
      ]

  map_page-IsEmpty :
      (virt phys flags : ℕ) (s : Vmm) (st : State)
      → IsEmpty st
      → IsEmpty (map_page frames virt phys flags s st).1
  unfolding map_page
  map_page-IsEmpty virt phys flags s st e =
      let (pdpt, mem1, st1) = walk_or_alloc frames s.pml4 (pml4_index virt) s.mem st in
      let e1 = walk_or_alloc-IsEmpty s.pml4 (pml4_index virt) s.mem st e in
      let (pd, mem2, st2) = walk_or_alloc frames pdpt (pdpt_index virt) mem1 st1 in
      let e2 = walk_or_alloc-IsEmpty pdpt (pdpt_index virt) mem1 st1 e1 in
      let (pt, mem3, st3) = walk_or_alloc frames pd (pd_index virt) mem2 st2 in
      let e3 = walk_or_alloc-IsEmpty pd (pd_index virt) mem2 st2 e2 in
      elim (Bool-cases (pdpt == 0)) [
        | inl z ↦ rw (map_page, z) e1
        | inr n1 ↦ elim (Bool-cases (pd == 0)) [
          | inl z ↦ rw (map_page, n1, z) e2
          | inr n2 ↦ elim (Bool-cases (pt == 0)) [
            | inl z ↦ rw (map_page, n1, n2, z) e3
            | inr n3 ↦ rw (map_page, n1, n2, n3) e3
          ]
        ]
      ]

  map_loop-IsEmpty :
      (n i virt_start phys_start flags : ℕ) (s : Vmm) (st : State)
      → IsEmpty st
      → IsEmpty (map_loop frames n i virt_start phys_start flags s st).1
  unfolding map_loop
  map_loop-IsEmpty zero i virt_start phys_start flags s st e = e
  map_loop-IsEmpty (suc n) i virt_start phys_start flags s st e =
      let virt = (virt_start + i * vmm_page_size) % 2 ^ 64 in
      let phys = (phys_start + i * vmm_page_size) % 2 ^ 64 in
      map_loop-IsEmpty n (i + 1) virt_start phys_start flags
        (map_page frames virt phys flags s st).0 (map_page frames virt phys flags s st).1
        (map_page-IsEmpty virt phys flags s st e)

  pub map_loop_stays_empty :
      (n i virt_start phys_start flags : ℕ) (s : Vmm) (st : State)
      → IsGood st
      → (alloc_page st).0 ≡ 0
      → (alloc_page (map_loop frames n i virt_start phys_start flags s st).1).0 ≡ 0
  map_loop_stays_empty n i virt_start phys_start flags s st good e =
      (map_loop-IsEmpty n i virt_start phys_start flags s st (good, e)).1
