-- ===== src/Heap.antt =====
-- The kernel heap of src/heap.rs. The flat list of block headers is a list in the order of the `next`
-- pointers, each header with its address, so that `next` is the address of the header behind it and
-- null at the end. Sizes are u32 and wrap where the code adds them.
pub mod Coalesce
pub mod Contents
pub mod Expand
pub mod Fit
pub mod Malloc
pub mod Replace
pub mod RoundTrip
pub mod Supply
pub mod Tests
pub mod Tiling
use sysrust.Common.{
  ℕ, zero, suc, ◌+◌, ◌-◌, ◌*◌, ◌/◌, ◌%◌, ◌^◌, Bool, true, false, ◌&&◌, not, Option, none, some,
  List, [], ◌∷◌, ◌++◌, ◌==◌, ltb, leb, if◌then◌else◌,
}

abbrev pub heap_start : ℕ
heap_start = 0x0050_0000

abbrev pub heap_initial_pages : ℕ
heap_initial_pages = 256

abbrev pub heap_max_pages : ℕ
heap_max_pages = 16384

abbrev pub min_split : ℕ
min_split = 16

abbrev pub header_size : ℕ
header_size = 16

abbrev pub page_size : ℕ
page_size = 4096

abbrev pub null : ℕ
null = 0

-- A block header and the address at which it stands.
pub record Block : Type 0 where
  pub addr : ℕ
  pub size : ℕ
  pub is_free : Bool

abbrev pub Blocks : Type 0
Blocks = List Block

-- HEAP_HEAD and HEAP_PAGES, with the arguments (virtual, physical) of the calls of
-- vmm::map_page, the latest first.
pub record Heap : Type 0 where
  pub blocks : Blocks
  pub pages : ℕ
  pub mappings : List (ℕ × ℕ)

-- The physical allocator as the heap sees it: `alloc_page` gives an address, 0 when exhausted.
pub record PageSource : Type 1 where
  pub State : Type 0
  pub alloc_page : State → ℕ × State

-- Both free, and the second header exactly behind the bytes of the first.
abbrev pub can_merge : Block → Block → Bool
can_merge cur next =
    cur.is_free && (next.is_free && (cur.addr + (header_size + cur.size) % 2 ^ 32 == next.addr))

abbrev pub merge : Block → Block → Block
merge cur next = record cur { size = (cur.size + header_size + next.size) % 2 ^ 32 }

-- The loop of `coalesce` at `cur`, with the list behind it: a merged block is tried again.
pub absorb : Block → Blocks → Blocks
absorb cur [] = cur ∷ []
absorb cur (next ∷ rest) =
    let merged = absorb (merge cur next) rest in
    let kept = cur ∷ absorb next rest in if can_merge cur next then merged else kept

pub coalesce : Blocks → Blocks
unfolding absorb
coalesce [] = []
coalesce (b ∷ bs) = absorb b bs

-- The pointer handed out, and the headers that stand in the place of `cur`.
pub try_alloc : Block → ℕ → Option (ℕ × Blocks)
try_alloc cur aligned_size =
    if cur.is_free && leb aligned_size cur.size
    then (if leb ((aligned_size + header_size + min_split) % 2 ^ 32) cur.size
        then some (
          cur.addr + header_size,
          record cur { size = aligned_size; is_free = false }
              ∷ record {
                addr = cur.addr + (header_size + aligned_size) % 2 ^ 32;
                size = cur.size - aligned_size - header_size;
                is_free = true;
              }
              ∷ [],
        )
        else some (cur.addr + header_size, record cur { is_free = false } ∷ []))
    else none

-- The first-fit search of `kmalloc`.
pub first_fit : ℕ → Blocks → Option (ℕ × Blocks)
unfolding try_alloc
first_fit aligned_size [] = none
first_fit aligned_size (b ∷ bs) = elim (try_alloc b aligned_size) [
  | some (ptr, here) ↦ some (ptr, here ++ bs)
  | none ↦ elim (first_fit aligned_size bs) [
    | some (ptr, rest) ↦ some (ptr, b ∷ rest)
    | none ↦ none
  ]
]

-- ((size as u32) + 7) & !7
abbrev pub aligned : ℕ → ℕ
aligned size = (size % 2 ^ 32 + 7) % 2 ^ 32 / 8 * 8

-- Whole pages for a block of this size and its header, and at least 16.
pub need_pages : ℕ → ℕ
need_pages aligned_size =
    let n = (aligned_size + header_size + page_size - 1) / page_size in if ltb n 16 then 16 else n

-- `kfree`'s write to the header at `hdr`: `none` where no header of the list stands there.
pub release : (hdr : ℕ) → Blocks → Option (Bool × Blocks)
release hdr [] = none
release hdr (b ∷ bs) =
    if b.addr == hdr
    then (if b.is_free then some (true, b ∷ bs) else some (false, record b { is_free = true } ∷ bs))
    else elim (release hdr bs) [ some (was_free, rest) ↦ some (was_free, b ∷ rest) | none ↦ none ]

-- `none` is a pointer that no header of the list belongs to; the code would then write to memory
-- that is not the heap's.
pub kfree : (ptr : ℕ) → Heap → Option Heap
unfolding release coalesce
kfree ptr h = if ptr == null then some h else elim (release (ptr - header_size) h.blocks) [
  | none ↦ none
  | some (was_free, bs) ↦ if was_free then some h else some (record h { blocks = coalesce bs })
]

-- The walk of `get_free` with the bytes found so far.
pub sum_free : (free_bytes : ℕ) → Blocks → ℕ
sum_free free_bytes [] = free_bytes
sum_free free_bytes (b ∷ bs) =
    sum_free (if b.is_free then (free_bytes + b.size) % 2 ^ 32 else free_bytes) bs

pub get_free : Heap → ℕ
unfolding sum_free
get_free h = sum_free 0 h.blocks

module _ (source : PageSource) where
  open source use {State, alloc_page}

  -- The mapping loop of `expand_heap`: `n` rounds left, `i` pages done; it stops when no page is left.
  pub map_pages : (n i base_virt : ℕ) → Heap → State → ℕ × Heap × State
  map_pages zero i base_virt h st = (i, h, st)
  map_pages (suc n) i base_virt h st =
      let (phys, st') = alloc_page st in
      let virt = base_virt + i * page_size in
      let rest =
        map_pages n (i + 1) base_virt
          (record h { pages = h.pages + 1; mappings = (virt, phys) ∷ h.mappings }) st' in
      if phys == 0 then (i, h, st') else rest

  -- True on success, with the new free block at the end of the list.
  pub expand_heap : (pages : ℕ) → Heap → State → Bool × Heap × State
  unfolding map_pages
  expand_heap pages h st =
      let base_virt = heap_start + h.pages * page_size in
      let (mapped, h', st') = map_pages pages 0 base_virt h st in
      if ltb heap_max_pages (h.pages + pages)
      then (false, h, st)
      else if mapped == 0
      then (false, h', st')
      else (
        true,
        record h' {
          blocks =
              h'.blocks
              ++ record {
                addr = base_virt;
                size = (mapped * page_size - header_size) % 2 ^ 32;
                is_free = true;
              }
                ∷ [];
        },
        st',
      )

  pub init : State → Heap × State
  unfolding expand_heap
  init st =
      let (done, h, st') =
        expand_heap heap_initial_pages (record { blocks = []; pages = 0; mappings = [] }) st in
      (h, st')

  -- The search, the growth of the heap where it fails, and the second search.
  pub kmalloc : (size : ℕ) → Heap → State → ℕ × Heap × State
  unfolding first_fit need_pages expand_heap
  kmalloc size h st =
      let a = aligned size in
      let grown = expand_heap (need_pages a) h st in
      if size == 0 then (null, h, st) else elim (first_fit a h.blocks) [
        | some (ptr, bs) ↦ (ptr, record h { blocks = bs }, st)
        | none ↦
            let (done, h', st') = grown in
            if done
            then elim (first_fit a h'.blocks) [
              | some (ptr, bs) ↦ (ptr, record h' { blocks = bs }, st')
              | none ↦ (null, h', st')
            ]
            else (null, h', st')
      ]
