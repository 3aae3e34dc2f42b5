-- ===== src/Vmm/Supply.antt =====
-- What src/vmm.rs relies on of the page allocator, and the allocator of src/pmm.rs as one that does it.
use sysrust.Common.{
  ℕ, ◌/◌, ◌%◌, ◌^◌, ◌≡◌, ◌<◌, ◌⊎◌, inl, inr, true, false, Bool-cases, ◌==◌, arith, ==→eq, refl,
}
use sysrust.Vmm.{Frames}
use sysrust.Pmm.{Pmm, max_pages, page_size, bitmap_test}
use sysrust.Pmm.Counting.{IsCounted}
use sysrust.Pmm.Alloc.{Taken, alloc_page-Taken}

-- A page handed out: it was free, it is free no more, and no page became free.
pub record IsFresh {State : Type 0} (Free : State → ℕ → Type 0) (st : State) (q : ℕ) (st' : State)
    : Type 0 where
  pub positive : 0 < q
  pub page : q % 4096 ≡ 0
  pub reach : q < 2 ^ 52
  pub was_free : Free st q
  pub taken : Free st' q → ⊥
  pub shrinks : (r : ℕ) → Free st' r → Free st r

-- An allocator that answers 0 without a change, or hands out a free page.
pub record Supply (frames : Frames) : Type 1 where
  pub IsGood : frames.State → Type 0
  pub Free : frames.State → ℕ → Type 0
  pub gives :
      (st : frames.State)
      → IsGood st
      → let (q, st') = frames.alloc_page st in
        IsGood st' × (((q ≡ 0) × (st' ≡ st)) ⊎ IsFresh Free st q st')

module _ (words : ℕ) (fits : max_pages words < 2 ^ 32) where
  abbrev pub pmm_frames : Frames
  pmm_frames = record { State = Pmm; alloc_page = sysrust.Pmm.alloc_page words }

  -- Page 0 is reserved, and FREE_PAGES counts the free pages.
  abbrev pub IsReady : Pmm → Type 0
  IsReady s = IsCounted words s × (bitmap_test 0 s.bitmap ≡ true)

  abbrev pub IsFree : Pmm → ℕ → Type 0
  IsFree s q = bitmap_test (q / page_size) s.bitmap ≡ false

  Taken-IsFresh :
      (s : Pmm) (q : ℕ) (s' : Pmm)
      → IsReady s
      → Taken words s q s'
      → IsReady s' × IsFresh IsFree s q s'
  Taken-IsFresh s q s' v t =
      let at : q / page_size ≡ t.page = omega (arith, t.address) in
      (
        (t.counted, ground (arith, t.marks 0, v.1)),
        record {
          positive = ground (arith, t.was_clear, v.1, t.address);
          page = omega (arith, t.address);
          reach = omega (arith, t.address, t.in_range);
          was_free = rw at t.was_clear;
          taken = λ h. ground (arith, rw at at h, t.marks t.page);
          shrinks = λ r h. ground (arith, t.marks (r / page_size), h);
        },
      )

  pub alloc_page-IsReady :
      (s : Pmm)
      → IsReady s
      → let (q, s') = sysrust.Pmm.alloc_page words s in
        IsReady s' × (((q ≡ 0) × (s' ≡ s)) ⊎ IsFresh IsFree s q s')
  alloc_page-IsReady s v =
      let (empty, full) = alloc_page-Taken words fits s v.0 in
      elim (Bool-cases (s.free_pages == 0)) [
        | inl z ↦ rw (empty (==→eq _ _ z)) (v, inl (refl, refl))
        | inr nz ↦
            let h =
              Taken-IsFresh s (sysrust.Pmm.alloc_page words s).0 (sysrust.Pmm.alloc_page words s).1
                v (full (λ z. ground arith)) in
            (h.0, inr h.1)
      ]

  abbrev pub pmm_supply : Supply pmm_frames
  pmm_supply = record { IsGood = IsReady; Free = IsFree; gives = alloc_page-IsReady }
