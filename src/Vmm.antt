-- ===== src/Vmm.antt =====
-- The four-level page tables of src/vmm.rs. Physical memory is a function from the address of an
-- 8-byte word to its value; a table is the address of its first word, and the pages for new tables
-- come from the allocator of the section.
pub mod Exhausted
pub mod Mapping
pub mod Pages
pub mod Outcome
pub mod Path
pub mod Ranges
pub mod Supply
pub mod Tests
pub mod Translation
pub mod Tree
pub mod Walk
use sysrust.Common.{
  ℕ, zero, suc, ◌+◌, ◌-◌, ◌*◌, ◌/◌, ◌%◌, ◌^◌, Bool, true, false, ◌&&◌, not, Option, none, some,
  List, [], ◌∷◌, ◌==◌, ltb, leb, if◌then◌else◌, Table, store,
}

abbrev pub vmm_page_size : ℕ
vmm_page_size = 4096

abbrev pub page_present : ℕ
page_present = 0x01

abbrev pub page_write : ℕ
page_write = 0x02

abbrev pub page_user : ℕ
page_user = 0x04

-- entry & PAGE_PRESENT
abbrev pub is_present : ℕ → Bool
is_present entry = entry % 2 == 1

-- entry & ADDR_MASK: bits 12 to 51
abbrev pub address_of : ℕ → ℕ
address_of entry = entry / 2 ^ 12 % 2 ^ 40 * 2 ^ 12

-- The words of a page become 0.
abbrev pub zero_page : (dest : ℕ) → Table ℕ → Table ℕ
zero_page dest mem a = if leb dest a && ltb a (dest + vmm_page_size) then 0 else mem a

abbrev pub pml4_index : ℕ → ℕ
pml4_index virt = virt / 2 ^ 39 % 512

abbrev pub pdpt_index : ℕ → ℕ
pdpt_index virt = virt / 2 ^ 30 % 512

abbrev pub pd_index : ℕ → ℕ
pd_index virt = virt / 2 ^ 21 % 512

abbrev pub pt_index : ℕ → ℕ
pt_index virt = virt / 2 ^ 12 % 512

-- The page allocator as the tables see it: `alloc_page` gives an address, 0 when exhausted.
pub record Frames : Type 1 where
  pub State : Type 0
  pub alloc_page : State → ℕ × State

-- The address of the next table, or null (0), without a change.
unfoldable pub walk_readonly : (mem : Table ℕ) (table index : ℕ) → ℕ
walk_readonly mem table index =
    let entry = mem (table + index * 8) in if is_present entry then address_of entry else 0

-- Memory and PML4_PHYS.
pub record Vmm : Type 0 where
  pub mem : Table ℕ
  pub pml4 : ℕ

-- From the register CR3.
abbrev pub init : (cr3 : ℕ) → Table ℕ → Vmm
init cr3 mem = record { mem = mem; pml4 = address_of cr3 }

-- The physical address, or 0 where a table is missing.
unfoldable pub get_physical : ℕ → Vmm → ℕ
unfolding walk_readonly
get_physical virt s =
    let pdpt = walk_readonly s.mem s.pml4 (pml4_index virt) in
    let pd = walk_readonly s.mem pdpt (pdpt_index virt) in
    let pt = walk_readonly s.mem pd (pd_index virt) in
    let pte = s.mem (pt + pt_index virt * 8) in
    if pdpt == 0
    then 0
    else if pd == 0
    then 0
    else if pt == 0
    then 0
    else if is_present pte
    then address_of pte + virt % 4096
    else 0

unfoldable pub unmap_page : ℕ → Vmm → Vmm
unfolding walk_readonly
unmap_page virt s =
    let pdpt = walk_readonly s.mem s.pml4 (pml4_index virt) in
    let pd = walk_readonly s.mem pdpt (pdpt_index virt) in
    let pt = walk_readonly s.mem pd (pd_index virt) in
    if pdpt == 0
    then s
    else if pd == 0
    then s
    else if pt == 0
    then s
    else record s { mem = store s.mem (pt + pt_index virt * 8) 0 }

module _ (frames : Frames) where
  open frames use {State, alloc_page}

  -- The next table, installed where there was none; 0 when no page is left.
  unfoldable pub walk_or_alloc : (table index : ℕ) → Table ℕ → State → ℕ × Table ℕ × State
  walk_or_alloc table index mem st =
      let entry = mem (table + index * 8) in
      let (new_table, st') = alloc_page st in
      let flags = page_present + page_write + page_user in
      let installed =
        store (zero_page new_table mem) (table + index * 8) (new_table / 8 * 8 + flags) in
      if is_present entry
      then (address_of entry, mem, st)
      else if new_table == 0
      then (0, mem, st')
      else (new_table, installed, st')

  unfoldable pub map_page : (virt phys flags : ℕ) → Vmm → State → Vmm × State
  unfolding walk_or_alloc
  map_page virt phys flags s st =
      let (pdpt, mem1, st1) = walk_or_alloc s.pml4 (pml4_index virt) s.mem st in
      let (pd, mem2, st2) = walk_or_alloc pdpt (pdpt_index virt) mem1 st1 in
      let (pt, mem3, st3) = walk_or_alloc pd (pd_index virt) mem2 st2 in
      let entry = address_of phys + flags % 2 ^ 12 in
      if pdpt == 0
      then (record s { mem = mem1 }, st1)
      else if pd == 0
      then (record s { mem = mem2 }, st2)
      else if pt == 0
      then (record s { mem = mem3 }, st3)
      else (record s { mem = store mem3 (pt + pt_index virt * 8) entry }, st3)

  -- The loop of `map_range`: `n` pages left, from page `i`.
  unfoldable pub map_loop : (n i virt_start phys_start flags : ℕ) → Vmm → State → Vmm × State
  unfolding map_page
  map_loop zero i virt_start phys_start flags s st = (s, st)
  map_loop (suc n) i virt_start phys_start flags s st =
      let (s1, st1) =
        map_page ((virt_start + i * vmm_page_size) % 2 ^ 64)
          ((phys_start + i * vmm_page_size) % 2 ^ 64) flags s st in
      map_loop n (i + 1) virt_start phys_start flags s1 st1

  unfoldable pub map_range : (virt_start phys_start size flags : ℕ) → Vmm → State → Vmm × State
  unfolding map_loop
  map_range virt_start phys_start size flags s st =
      map_loop ((size + vmm_page_size - 1) % 2 ^ 64 / vmm_page_size) 0 virt_start phys_start flags s
        st
