-- ===== src/Pmm.antt =====
-- The physical page allocator of src/pmm.rs: the bitmap as a table of 32-bit words, and the two
-- counters. The number of words is a parameter; the kernel's is 32768.
pub mod Alloc
pub mod Bitmap
pub mod Boot
pub mod Counting
pub mod Regions
pub mod Tests
use Prim.Native.Nat.{bit_and, bit_or}
use sysrust.Common.{
  ℕ, zero, suc, ◌+◌, ◌-◌, ◌*◌, ◌/◌, ◌%◌, ◌^◌, Bool, true, false, ◌&&◌, not, Option, none, some,
  List, [], ◌∷◌, ◌==◌, ltb, leb, if◌then◌else◌, Table, store, find_from, count_from, for_range,
}

abbrev pub page_size : ℕ
page_size = 4096

-- MAX_PAGES of the kernel, which a bitmap of 32768 words covers.
abbrev pub kernel_words : ℕ
kernel_words = 32768

abbrev pub full_word : ℕ
full_word = 0xffff_ffff

pub record Pmm : Type 0 where
  pub bitmap : Table ℕ
  pub total_pages : ℕ
  pub free_pages : ℕ

pub bitmap_set : ℕ → Table ℕ → Table ℕ
bitmap_set page b = store b (page / 32) (bit_or (b (page / 32)) (2 ^ (page % 32)))

-- `!` of a 32-bit word.
abbrev pub not32 : ℕ → ℕ
not32 w = 2 ^ 32 - 1 - w

pub bitmap_clear : ℕ → Table ℕ → Table ℕ
bitmap_clear page b = store b (page / 32) (bit_and (b (page / 32)) (not32 (2 ^ (page % 32))))

unfoldable pub bitmap_test : ℕ → Table ℕ → Bool
bitmap_test page b = not (bit_and (b (page / 32)) (2 ^ (page % 32)) == 0)

-- FREE_PAGES += 1 and FREE_PAGES -= 1, on u32.
abbrev pub gain : ℕ → ℕ
gain n = (n + 1) % 2 ^ 32

abbrev pub lose : ℕ → ℕ
lose n = (n + 2 ^ 32 - 1) % 2 ^ 32

pub free_one : ℕ → Pmm → Pmm
unfolding bitmap_test bitmap_clear
free_one p s =
    if bitmap_test p s.bitmap
    then record s { bitmap = bitmap_clear p s.bitmap; free_pages = gain s.free_pages }
    else s

pub use_one : ℕ → Pmm → Pmm
unfolding bitmap_test bitmap_set
use_one p s =
    if bitmap_test p s.bitmap
    then s
    else record s { bitmap = bitmap_set p s.bitmap; free_pages = lose s.free_pages }

-- An entry of the Multiboot memory map.
pub record MmapEntry : Type 0 where
  pub base_low : ℕ
  pub base_high : ℕ
  pub length_low : ℕ
  pub entry_type : ℕ

-- The bit that the inner loop takes, in word `i`.
pub take_bit : (i bit : ℕ) → Pmm → ℕ × Pmm
take_bit i bit s = (
  (i * 32 + bit) * page_size,
  record s {
    bitmap = store s.bitmap i (bit_or (s.bitmap i) (2 ^ bit));
    free_pages = lose s.free_pages;
  },
)

pub alloc_loop : (n i : ℕ) → Pmm → ℕ × Pmm
unfolding take_bit
alloc_loop zero i s = (0, s)
alloc_loop (suc n) i s =
    let rest = alloc_loop n (i + 1) s in
    if s.bitmap i == full_word
    then rest
    else elim (find_from (λ bit. bit_and (s.bitmap i) (2 ^ bit) == 0) 32 0) [
      | some bit ↦ take_bit i bit s
      | none ↦ rest
    ]

-- The last loop of `init` over the bits of one word, and over the words; u32 additions.
pub add_bits : (w : ℕ) → (n bit total : ℕ) → ℕ
add_bits w zero bit total = total
add_bits w (suc n) bit total =
    add_bits w n (bit + 1) (if bit_and w (2 ^ bit) == 0 then total else (total + 1) % 2 ^ 32)

pub add_words : (b : Table ℕ) → (n i total : ℕ) → ℕ
unfolding add_bits
add_words b zero i total = total
add_words b (suc n) i total = add_words b n (i + 1) (add_bits (b i) 32 0 total)

module _ (words : ℕ) where
  abbrev pub max_pages : ℕ
  max_pages = words * 32

  abbrev pub clamp : ℕ → ℕ
  clamp page_end = if ltb max_pages page_end then max_pages else page_end

  -- Whole pages of the region; the casts to u32 keep 32 bits.
  pub mark_region_free : (base length : ℕ) → Pmm → Pmm
  unfolding free_one
  mark_region_free base length s =
      let page_start = base / page_size % 2 ^ 32 in
      let page_end = (base + length) % 2 ^ 64 / page_size % 2 ^ 32 in
      if leb max_pages page_start
      then s
      else for_range free_one (clamp page_end - page_start) page_start s

  -- Rounded up, so that a page used in part is used.
  pub mark_region_used : (base length : ℕ) → Pmm → Pmm
  unfolding use_one
  mark_region_used base length s =
      let page_start = base / page_size % 2 ^ 32 in
      let page_end = (base + length + page_size - 1) % 2 ^ 64 / page_size % 2 ^ 32 in
      if leb max_pages page_start
      then s
      else for_range use_one (clamp page_end - page_start) page_start s

  pub reserve_range : (start end : ℕ) → Pmm → Pmm
  unfolding mark_region_used
  reserve_range start end s = if leb end start then s else mark_region_used start (end - start) s

  -- The address of a page, or 0.
  unfoldable pub alloc_page : Pmm → ℕ × Pmm
  unfolding alloc_loop
  alloc_page s = alloc_loop words 0 s

  pub free_page : ℕ → Pmm → Pmm
  unfolding free_one
  free_page addr s =
      let page = addr / page_size % 2 ^ 32 in
      if addr == 0 then s else if leb max_pages page then s else free_one page s

  -- Step 2 of `init` for one entry.
  pub add_entry : MmapEntry → Pmm → Pmm
  unfolding mark_region_free
  add_entry e s =
      let end = e.base_low + e.length_low in
      let end' = if ltb (max_pages * page_size) end then max_pages * page_size else end in
      if (e.entry_type == 1) && (e.base_high == 0)
      then (if ltb e.base_low end' then mark_region_free e.base_low (end' - e.base_low) s else s)
      else s

  pub add_entries : List MmapEntry → Pmm → Pmm
  unfolding add_entry
  add_entries [] s = s
  add_entries (e ∷ es) s = add_entries es (add_entry e s)

  -- Step 1: every word full.
  pub fill : Table ℕ → Table ℕ
  fill b = for_range (λ i (b : Table ℕ). store b i full_word) words 0 b

  -- `entries` are what the walk of the memory map meets, none without the flag; `kernel_end` is
  -- the linker's __bss_end.
  pub init : (entries : List MmapEntry) → (kernel_end : ℕ) → Pmm → Pmm
  unfolding fill add_entries mark_region_used add_words
  init entries kernel_end s =
      let s1 : Pmm = record { bitmap = fill s.bitmap; total_pages = 0; free_pages = 0 } in
      let s2 = add_entries entries s1 in
      let s3 = mark_region_used 0 0x100000 (record s2 { total_pages = s2.free_pages }) in
      let s4 = mark_region_used 0x100000 ((kernel_end + 2 ^ 64 - 0x100000) % 2 ^ 64) s3 in
      record s4 { total_pages = add_words s4.bitmap words 0 s4.free_pages }
