-- ===== src/Pmm/Alloc.antt =====
-- `alloc_page` and `free_page` of pmm.rs against the set of free pages.
use Prim.Native.Nat.{bit_and}
use sysrust.Common.{
  ℕ, zero, suc, ◌+◌, ◌-◌, ◌*◌, ◌/◌, ◌%◌, ◌^◌, ◌≤◌, ◌<◌, ◌≡◌, ◌≢◌, inl, inr, Bool, true, false,
  arith, refl, ◌==◌, ltb, leb, if◌then◌else◌, Table, Bool-cases, Option-cases, find_from,
  find_from-none, find_from-some, FirstIn, NoneIn, ◌∙◌, sym, ap, ==→eq, ltb-false, count_from_zero,
  count_from-le,
}
use mathlib.Core.Bool.{not-not}
use sysrust.Common.Bits.{bit, bit-not, bit-zero}
use sysrust.Pmm.{
  Pmm, bitmap_test, free_one, use_one, max_pages, alloc_loop, alloc_page, take_bit, free_page,
  page_size, bitmap_set, full_word,
}
use sysrust.Pmm.Bitmap.{bitmap_test-bit, test-clear}
use sysrust.Pmm.Regions.{test-use_one}
use sysrust.Pmm.Counting.{is_clear, IsCounted, use_one-IsCounted}

full_word-bit : (k : ℕ) → k < 32 → bit full_word k ≡ 1
full_word-bit k h = ground (arith, bit-not 32 k 0, bit-zero k)

-- The inner loop's test on word `i` is the test of the page.
pub page_test :
    (i k : ℕ) (b : Table ℕ) → k < 32 → (bit_and (b i) (2 ^ k) == 0) ≡ is_clear b (i * 32 + k)
unfolding bitmap_test
page_test i k b h =
    let word : (i * 32 + k) / 32 ≡ i = omega arith in
    let place : (i * 32 + k) % 32 ≡ k = omega arith in
    rw (bitmap_test, word, place) (sym (not-not (bit_and (b i) (2 ^ k) == 0)))

-- A full word has no clear page.
pub full_word_used :
    (i p : ℕ) (b : Table ℕ) → b i ≡ full_word → i * 32 ≤ p → p < i * 32 + 32 → is_clear b p ≡ false
full_word_used i p b full lo hi =
    let word : p / 32 ≡ i = omega arith in
    rw (bitmap_test-bit, word, full, full_word-bit (p % 32) (omega arith))

module _ (words : ℕ) where
  -- The test that the inner loop makes on word `i`.
  abbrev clear_in : Pmm → ℕ → ℕ → Bool
  clear_in s i k = bit_and (s.bitmap i) (2 ^ k) == 0

  alloc_loop_none :
      (n i : ℕ) (s : Pmm) → NoneIn (is_clear s.bitmap) (n * 32) (i * 32) → alloc_loop n i s ≡ (0, s)
  unfolding alloc_loop
  alloc_loop_none zero i s none_clear = refl
  alloc_loop_none (suc n) i s none_clear =
      let rest = alloc_loop_none n (i + 1) s (λ k a b. none_clear k (omega arith) (omega arith)) in
      elim (Option-cases (find_from (clear_in s i) 32 0)) [
        | inl e ↦ ground (arith, rest, e)
        | inr (k, e) ↦
            let f = find_from-some (clear_in s i) 32 0 k e in
            absurd (ground (arith, page_test i k s.bitmap f.1, none_clear (i * 32 + k)))
      ]

  -- The first clear page is in the first word that has a clear bit, at the first such bit.
  FirstIn-word :
      (i k n p : ℕ) (s : Pmm)
      → FirstIn (is_clear s.bitmap) n (i * 32) p
      → FirstIn (clear_in s i) 32 0 k
      → (p / 32 ≡ i) × (p % 32 ≡ k)
  FirstIn-word i k n p s f g =
      let there = page_test i k s.bitmap g.1 in
      let upper : p ≤ i * 32 + k = ground (arith, f.3 (i * 32 + k)) in
      let here = page_test i (p - i * 32) s.bitmap (omega (arith, f.0, g.1)) in
      let at : i * 32 + (p - i * 32) ≡ p = omega (arith, f.0) in
      let lower : k ≤ p - i * 32 = ground (arith, g.3 (p - i * 32), rw at at here) in
      omega (arith, f.0, g.1)

  beyond_word :
      (i n p : ℕ) (s : Pmm)
      → FirstIn (is_clear s.bitmap) (suc n * 32) (i * 32) p
      → i * 32 + 32 ≤ p
      → FirstIn (is_clear s.bitmap) (n * 32) ((i + 1) * 32) p
  beyond_word i n p s f far = (omega arith, omega (arith, f.1), f.2, λ k a b. f.3 k (omega arith) b)

  not_in_word :
      (i p : ℕ) (s : Pmm)
      → i * 32 ≤ p
      → is_clear s.bitmap p ≡ true
      → NoneIn (clear_in s i) 32 0
      → i * 32 + 32 ≤ p
  not_in_word i p s lo clear none_clear = elim (Bool-cases (ltb p (i * 32 + 32))) [
    | inr far ↦ ltb-false p (i * 32 + 32) far
    | inl near ↦
        let at : i * 32 + (p - i * 32) ≡ p = omega arith in
        let small : p - i * 32 < 32 = ground arith in
        let here = rw at at (page_test i (p - i * 32) s.bitmap small) in
        absurd (ground (arith, none_clear (p - i * 32)))
  ]

  alloc_loop_first :
      (n i p : ℕ) (s : Pmm)
      → FirstIn (is_clear s.bitmap) (n * 32) (i * 32) p
      → alloc_loop n i s ≡ take_bit (p / 32) (p % 32) s
  unfolding alloc_loop
  alloc_loop_first zero i p s f = absurd (omega (arith, f.0, f.1))
  alloc_loop_first (suc n) i p s f = elim (Bool-cases (s.bitmap i == full_word)) [
    | inl full ↦
        let far : i * 32 + 32 ≤ p =
          ground (arith, f.0, f.2, full_word_used i p s.bitmap (==→eq _ _ full)) in
        rw (alloc_loop, full) (alloc_loop_first n (i + 1) p s (beyond_word i n p s f far))
    | inr some_clear ↦ elim (Option-cases (find_from (clear_in s i) 32 0)) [
      | inl e ↦
          let g = find_from-none (clear_in s i) 32 0 e in
          let far = not_in_word i p s f.0 f.2 g in
          rw (alloc_loop, some_clear, e)
            (alloc_loop_first n (i + 1) p s (beyond_word i n p s f far))
      | inr (k, e) ↦
          let g = find_from-some (clear_in s i) 32 0 k e in
          let at = FirstIn-word i k (suc n * 32) p s f g in
          rw (alloc_loop, some_clear, e, at.0, at.1)
    ]
  ]

  take_bit-use_one :
      (p : ℕ) (s : Pmm)
      → is_clear s.bitmap p ≡ true
      → take_bit (p / 32) (p % 32) s ≡ (p * page_size, use_one p s)
  unfolding take_bit use_one bitmap_set
  take_bit-use_one p s clear =
      let used : bitmap_test p s.bitmap ≡ false = ground arith in
      let address : (p / 32 * 32 + p % 32) * page_size ≡ p * page_size = omega arith in
      rw (use_one, used, address)

  -- The first clear page is handed out, and marked.
  pub alloc_page_first :
      (p : ℕ) (s : Pmm)
      → FirstIn (is_clear s.bitmap) (max_pages words) 0 p
      → alloc_page words s ≡ (p * page_size, use_one p s)
  unfolding alloc_page
  alloc_page_first p s f = alloc_loop_first words 0 p s f ∙ take_bit-use_one p s f.2

  -- A page handed out: free before, used after, no other page touched, and one page fewer is free.
  pub record Taken (s : Pmm) (addr : ℕ) (s' : Pmm) : Type 0 where
    pub page : ℕ
    pub in_range : page < max_pages words
    pub address : addr ≡ page * page_size
    pub was_clear : bitmap_test page s.bitmap ≡ false
    pub marks :
        (q : ℕ) → bitmap_test q s'.bitmap ≡ (if q == page then true else bitmap_test q s.bitmap)
    pub one_fewer : s'.free_pages + 1 ≡ s.free_pages
    pub counted : IsCounted words s'

use_one-free :
    (p : ℕ) (s : Pmm)
    → is_clear s.bitmap p ≡ true
    → s.free_pages ≢ 0
    → s.free_pages < 2 ^ 32
    → (use_one p s).free_pages + 1 ≡ s.free_pages
unfolding use_one
use_one-free p s clear nz small = ground arith

module _ (words : ℕ) (fits : max_pages words < 2 ^ 32) where
  free_page_undoes :
      (s : Pmm) (addr : ℕ) (s' : Pmm)
      → IsCounted words s
      → Taken words s addr s'
      → addr ≢ 0
      → ((q : ℕ) → bitmap_test q (free_page words addr s').bitmap ≡ bitmap_test q s.bitmap)
        × ((free_page words addr s').free_pages ≡ s.free_pages)
  unfolding free_page free_one
  free_page_undoes s addr s' v t nz =
      let page : addr / page_size % 2 ^ 32 ≡ t.page = omega (arith, t.address, t.in_range) in
      let nz' : (addr == 0) ≡ false = ground arith in
      let below : leb (max_pages words) t.page ≡ false = ground (arith, t.in_range) in
      let used : bitmap_test t.page s'.bitmap ≡ true = ground (arith, t.marks t.page) in
      let top = count_from-le (is_clear s.bitmap) (max_pages words) 0 in
      rw (free_page, nz', page, below, free_one, used)
        (
          λ q.
              ground
                (arith, test-clear q t.page s'.bitmap t.counted.are_words, t.marks q, t.was_clear),
          omega (arith, t.one_fewer, top, v.counted),
        )

  -- With fewer than 2^32 pages and FREE_PAGES equal to the number of clear bits: when FREE_PAGES
  -- is 0, alloc_page returns 0 and changes nothing; otherwise it returns the address of a page in
  -- range that was free, sets the bit of that page and no other, lowers FREE_PAGES by one, and
  -- FREE_PAGES still counts the clear bits.
  pub alloc_page-Taken :
      (s : Pmm)
      → IsCounted words s
      → (s.free_pages ≡ 0 → alloc_page words s ≡ (0, s))
        × (s.free_pages ≢ 0 → Taken words s (alloc_page words s).0 (alloc_page words s).1)
  unfolding alloc_page
  alloc_page-Taken s v = elim (Option-cases (find_from (is_clear s.bitmap) (max_pages words) 0)) [
    | inl e ↦
        let none_clear = find_from-none (is_clear s.bitmap) (max_pages words) 0 e in
        let zero_free = (count_from_zero (is_clear s.bitmap) (max_pages words) 0).1 none_clear in
        (λ z. alloc_loop_none words words 0 s none_clear, λ nz. absurd (nz (v.counted ∙ zero_free)))
    | inr (p, e) ↦
        let f = find_from-some (is_clear s.bitmap) (max_pages words) 0 p e in
        let run = alloc_page_first words p s f in
        let keeps = use_one-IsCounted words fits p s (omega (arith, f.1)) v in
        let top = count_from-le (is_clear s.bitmap) (max_pages words) 0 in
        (
          λ z. absurd (
              ground (
                arith,
                (count_from_zero (is_clear s.bitmap) (max_pages words) 0).0 (sym v.counted ∙ z) p,
                f.1,
              )),
          λ nz. rw run (record {
            page = p;
            in_range = omega (arith, f.1);
            address = refl;
            was_clear = ground (arith, f.2);
            marks = λ q. test-use_one q p s;
            one_fewer = use_one-free p s f.2 nz (omega (arith, top, v.counted));
            counted = keeps;
          }),
        )
  ]

  -- With fewer than 2^32 pages and FREE_PAGES equal to the number of clear bits, free_page of a
  -- non-zero address that alloc_page has just returned gives every page its old state and
  -- FREE_PAGES its old value.
  pub free_page-alloc_page :
      (s : Pmm)
      → IsCounted words s
      → (alloc_page words s).0 ≢ 0
      → let s' = free_page words (alloc_page words s).0 (alloc_page words s).1 in
        ((q : ℕ) → bitmap_test q s'.bitmap ≡ bitmap_test q s.bitmap)
        × (s'.free_pages ≡ s.free_pages)
  free_page-alloc_page s v nz =
      let (empty, full) = alloc_page-Taken s v in
      elim (Bool-cases (s.free_pages == 0)) [
        | inl z ↦ absurd (nz (ap (λ (r : ℕ × Pmm). r.0) (empty (==→eq _ _ z))))
        | inr some_free ↦
            let t = full (λ z. ground arith) in
            free_page_undoes s (alloc_page words s).0 (alloc_page words s).1 v t nz
      ]
