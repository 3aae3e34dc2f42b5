-- ===== src/Vmm/Tests.antt =====
-- Runs of the page tables of src/vmm.rs with the page allocator of src/pmm.rs, and the theorems at
-- them.
use sysrust.Common.{
  zero, suc, ◌-◌, ◌*◌, ◌%◌, ◌<◌, ◌⊎◌, ◌∷◌, leb, ltb, ◌&&◌, false, Table, Option-cases, ℕ, ◌+◌, ◌/◌,
  ◌≡◌, ◌==◌, true, List, [], arith, refl, if◌then◌else◌, some, none, Bool-cases, inl, inr,
  count_from, find_from, ==→eq,
}
use sysrust.Pmm.{Pmm, bitmap_test, alloc_page}
use sysrust.Pmm.Counting.{IsCounted}
use sysrust.Vmm.{address_of, Vmm, map_page, map_range, unmap_page, get_physical, walk_or_alloc}
use sysrust.Vmm.Tree.{Places, IsTree, is_table}
use sysrust.Vmm.Supply.{pmm_frames, pmm_supply}
use sysrust.Vmm.Mapping.{IsReady}
use sysrust.Vmm.Pages.{page_of, IsSmall}
use sysrust.Vmm.Outcome.{MapOutcome, map_page-MapOutcome}
use sysrust.Vmm.Ranges.{virt_of, RangeOutcome, map_range-RangeOutcome, unmap_page-get_physical}

-- 64 pages: 3, 40, 41 and 50 are free.
abbrev four_free : Pmm
four_free = record {
  bitmap = λ i. if i == 0 then 0xffff_fff7 else if i == 1 then 0xfffb_fcff else 0xffff_ffff;
  total_pages = 64;
  free_pages = 4;
}

four_free-IsReady : IsCounted 2 four_free × (bitmap_test 0 four_free.bitmap ≡ true)
unfolding count_from bitmap_test
four_free-IsReady = (record { are_words = λ i. ground arith; counted = refl }, refl)

-- The page directories of boot.s: 512 large pages each, of 2 MiB from address 0 on.
abbrev boot_pd : (offset : ℕ) → ℕ
boot_pd offset = offset / 8 * 0x20_0000 + 0x83

-- The tables that boot.s builds: a PML4, a PDPT and four page directories, one after the other.
abbrev boot_mem : Table ℕ
boot_mem a =
    if a == 0x10_1000
    then 0x10_2003
    else if a == 0x10_2000
    then 0x10_3003
    else if a == 0x10_2008
    then 0x10_4003
    else if a == 0x10_2010
    then 0x10_5003
    else if a == 0x10_2018
    then 0x10_6003
    else if leb 0x10_3000 a && ltb a 0x10_7000
    then boot_pd (a - 0x10_3000)
    else 0

abbrev boot : Vmm
boot = record { mem = boot_mem; pml4 = 0x10_1000 }

abbrev boot_places : Places
boot_places q =
    if q == 0x10_1000
    then some []
    else if q == 0x10_2000
    then some (0 ∷ [])
    else if q == 0x10_3000
    then some (0 ∷ 0 ∷ [])
    else if q == 0x10_4000
    then some (1 ∷ 0 ∷ [])
    else if q == 0x10_5000
    then some (2 ∷ 0 ∷ [])
    else if q == 0x10_6000
    then some (3 ∷ 0 ∷ [])
    else none

-- A page of the tables is the PML4, the PDPT or a page directory.
record IsBootTable (p : ℕ) (π : List ℕ) : Type 0 where
  which :
      ((p ≡ 0x10_1000) × (π ≡ []))
      ⊎ (((p ≡ 0x10_2000) × (π ≡ 0 ∷ [])) ⊎ ((k : ℕ) × (k < 4) × (p ≡ 0x10_3000 + k * 0x1000)))

boot_places-IsBootTable : (p : ℕ) (π : List ℕ) → boot_places p ≡ some π → IsBootTable p π
boot_places-IsBootTable p π h = elim (Bool-cases (p == 0x10_1000)) [
  | inl e ↦ record { which = inl (==→eq _ _ e, cc (rw e at h)) }
  | inr n1 ↦ elim (Bool-cases (p == 0x10_2000)) [
    | inl e ↦ record { which = inr (inl (==→eq _ _ e, cc (rw (n1, e) at h))) }
    | inr n2 ↦ elim (Bool-cases (p == 0x10_3000)) [
      | inl e ↦ record { which = inr (inr (0, omega arith, ==→eq _ _ e)) }
      | inr n3 ↦ elim (Bool-cases (p == 0x10_4000)) [
        | inl e ↦ record { which = inr (inr (1, omega arith, ==→eq _ _ e)) }
        | inr n4 ↦ elim (Bool-cases (p == 0x10_5000)) [
          | inl e ↦ record { which = inr (inr (2, omega arith, ==→eq _ _ e)) }
          | inr n5 ↦ elim (Bool-cases (p == 0x10_6000)) [
            | inl e ↦ record { which = inr (inr (3, omega arith, ==→eq _ _ e)) }
            | inr n6 ↦ absurd (cc (rw (n1, n2, n3, n4, n5, n6) at h))
          ]
        ]
      ]
    ]
  ]
]

boot_pml4_links : (i : ℕ) → i < 512 → boot_mem (0x10_1000 + i * 8) % 2 ≡ 1 → i ≡ 0
boot_pml4_links i small here = ground arith

boot_pdpt_links : (i : ℕ) → i < 512 → boot_mem (0x10_2000 + i * 8) % 2 ≡ 1 → i < 4
boot_pdpt_links i small here = ground arith

boot_pd_large :
    (k i : ℕ)
    → k < 4
    → i < 512
    → boot_mem (0x10_3000 + k * 0x1000 + i * 8) ≡ (k * 512 + i) * 0x20_0000 + 0x83
boot_pd_large k i four small = ground arith

large_page : (n : ℕ) → is_table (n * 0x20_0000 + 0x83) ≡ false
large_page n = ground arith

boot_pdpt_below :
    (i : ℕ) → i < 4 → boot_places (address_of (boot_mem (0x10_2000 + i * 8))) ≡ some (i ∷ 0 ∷ [])
boot_pdpt_below zero h = refl
boot_pdpt_below (suc zero) h = refl
boot_pdpt_below (suc (suc zero)) h = refl
boot_pdpt_below (suc (suc (suc zero))) h = refl
boot_pdpt_below (suc (suc (suc (suc i)))) h = absurd (omega (arith, h))

odd_table : (entry : ℕ) → is_table entry ≡ true → entry % 2 ≡ 1
odd_table entry h = ground arith

boot-IsTree : IsTree boot.mem boot.pml4 boot_places
boot-IsTree = record {
  at_root = refl;
  aligned = λ p π h. elim (boot_places-IsBootTable p π h).which [
    | inl at ↦ omega (arith, at.0)
    | inr more ↦ elim more [ inl at ↦ omega (arith, at.0) | inr (k, _, at) ↦ omega (arith, at) ]
  ];
  linked = λ p π i h deep small here. elim (boot_places-IsBootTable p π h).which [
    | inl (at, path) ↦
        let z = boot_pml4_links i small (odd_table _ (rw at at here)) in rw (at, path, z) refl
    | inr more ↦ elim more [
      | inl (at, path) ↦
          let four = boot_pdpt_links i small (odd_table _ (rw at at here)) in
          rw (at, path) (boot_pdpt_below i four)
      | inr (k, four, at) ↦
          let entry = boot_pd_large k i four small in
          absurd (cc (at, entry, large_page (k * 512 + i), here))
    ]
  ];
}

boot-IsReady :
    IsReady
      (pmm_frames 2 (omega arith))
      (pmm_supply 2 (omega arith))
      boot.mem
      boot.pml4
      boot_places
      four_free
unfolding bitmap_test
boot-IsReady = record {
  tree = boot-IsTree;
  good = four_free-IsReady;
  apart = λ q free. elim (Option-cases (boot_places q)) [
    | inl e ↦ e
    | inr (π, h) ↦ elim (boot_places-IsBootTable q π h).which [
      | inl at ↦ absurd (cc (rw (at.0) at free))
      | inr more ↦ elim more [
        | inl at ↦ absurd (cc (rw (at.0) at free))
        | inr (k, four, at) ↦ absurd (ground (arith, free, at))
      ]
    ]
  ];
}

abbrev mapped : Vmm
mapped = (map_page (pmm_frames 2 (omega arith)) 0x4000_5000_7123 0x9abc 3 boot four_free).0

mapped_translates : get_physical 0x4000_5000_7123 mapped ≡ 0x9123
unfolding map_page get_physical alloc_page find_from walk_or_alloc
mapped_translates = refl

-- Above the 4 GiB that boot.s maps.
high-IsSmall : IsSmall 0x4000_5000_7123 boot
high-IsSmall e = absurd (cc e)

map_page-MapOutcome_example :
    MapOutcome
      (pmm_frames 2 (omega arith))
      (pmm_supply 2 (omega arith))
      0x4000_5000_7123
      0x9abc
      boot
      mapped
      (map_page (pmm_frames 2 (omega arith)) 0x4000_5000_7123 0x9abc 3 boot four_free).1
map_page-MapOutcome_example =
    map_page-MapOutcome (pmm_frames 2 (omega arith)) (pmm_supply 2 (omega arith)) boot boot_places
      four_free boot-IsReady 0x4000_5000_7123 0x9abc 3 high-IsSmall refl

-- The tables that mapping one page leaves.
abbrev places : Places
places = map_page-MapOutcome_example.place

unmap_page-get_physical_example :
    IsTree (unmap_page 0x4000_5000_7123 mapped).mem (unmap_page 0x4000_5000_7123 mapped).pml4 places
    × ((v : ℕ)
        → IsSmall v mapped
        → get_physical v (unmap_page 0x4000_5000_7123 mapped)
          ≡ (if page_of v == page_of 0x4000_5000_7123 then 0 else get_physical v mapped))
unmap_page-get_physical_example =
    unmap_page-get_physical 0x4000_5000_7123 mapped places map_page-MapOutcome_example.ready.tree
      (map_page-MapOutcome_example.small 0x4000_5000_7123 high-IsSmall)

-- Two pages from 4 GiB on; they need a page directory and a page table.
abbrev two_pages : Vmm × Pmm
two_pages = map_range (pmm_frames 2 (omega arith)) 0x1_0000_0000 0x8000 0x1001 3 boot four_free

two_pages_translate : get_physical 0x1_0000_1234 two_pages.0 ≡ 0x9234
unfolding map_range map_page get_physical alloc_page find_from walk_or_alloc
two_pages_translate = refl

two-IsSmall : (k : ℕ) → k < (0x1001 + 4095) / 4096 → IsSmall (virt_of 0x1_0000_0000 k) boot
two-IsSmall zero h e = absurd (cc e)
two-IsSmall (suc zero) h e = absurd (cc e)
two-IsSmall (suc (suc k)) h e = absurd (omega (arith, h))

map_range-RangeOutcome_example :
    RangeOutcome
      (pmm_frames 2 (omega arith))
      (pmm_supply 2 (omega arith))
      0x1_0000_0000
      0x8000
      0
      ((0x1001 + 4095) / 4096)
      boot
      two_pages.0
      two_pages.1
map_range-RangeOutcome_example =
    map_range-RangeOutcome (pmm_frames 2 (omega arith)) (pmm_supply 2 (omega arith)) 0x1_0000_0000
      0x8000 0x1001 3 boot boot_places four_free boot-IsReady refl (omega arith) two-IsSmall
