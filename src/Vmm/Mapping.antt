-- ===== src/Vmm/Mapping.antt =====
-- One level of the walk of src/vmm.rs, with the table that it may install.
use sysrust.Common.{
  store-miss, ℕ, ◌+◌, ◌*◌, ◌/◌, ◌≡◌, ◌<◌, List, [], ◌∷◌, true, false, some, none, length, Table,
  store, arith, refl, ap, ◌∙◌, ◌==◌, ◌⊎◌, inl, inr, Bool-cases,
}
use sysrust.Vmm.{is_present, address_of, Frames, walk_or_alloc, zero_page}
use sysrust.Vmm.Tree.{Places, IsTree, entry_at, AreIndices, is_table}
use sysrust.Vmm.Supply.{Supply, IsFresh}
use sysrust.Vmm.Walk.{
  installed-IsTree, installed-entry_at, link-address, link-table, kept, place-kept, place-new,
}

module _ (frames : Frames) (supply : Supply frames) where
  open frames use {State, alloc_page}
  open supply use {IsGood, Free, gives}

  -- A tree, and an allocator whose free pages are not in it.
  pub record IsReady (mem : Table ℕ) (root : ℕ) (place : Places) (st : State) : Type 0 where
    pub tree : IsTree mem root place
    pub good : IsGood st
    pub apart : (q : ℕ) → Free st q → place q ≡ none

  -- Only empty tables were added.
  pub record Extends (mem : Table ℕ) (root : ℕ) (place : Places) (mem' : Table ℕ) (place' : Places)
      (st' : State) : Type 0 where
    pub ready : IsReady mem' root place' st'
    pub places : (q : ℕ) (ρ : List ℕ) → place q ≡ some ρ → place' q ≡ some ρ
    pub entries :
        (is : List ℕ) → length is ≡ 4 → AreIndices is → entry_at mem' root is ≡ entry_at mem root is
    pub links :
        (q k : ℕ) (ρ : List ℕ)
        → place q ≡ some ρ
        → k < 512
        → is_present (mem (q + k * 8)) ≡ true
        → mem' (q + k * 8) ≡ mem (q + k * 8)

  pub Extends-refl :
      (mem : Table ℕ) (root : ℕ) (place : Places) (st : State)
      → IsReady mem root place st
      → Extends mem root place mem place st
  Extends-refl mem root place st v = record {
    ready = v;
    places = λ q ρ h. h;
    entries = λ is h hi. refl;
    links = λ q k ρ h hk p. refl;
  }

  pub Extends-trans :
      (mem : Table ℕ) (root : ℕ) (place : Places) (mem1 : Table ℕ) (place1 : Places) (st1 : State)
      (mem2 : Table ℕ) (place2 : Places) (st2 : State)
      → Extends mem root place mem1 place1 st1
      → Extends mem1 root place1 mem2 place2 st2
      → Extends mem root place mem2 place2 st2
  Extends-trans mem root place mem1 place1 st1 mem2 place2 st2 a b = record {
    ready = b.ready;
    places = λ q ρ h. b.places q ρ (a.places q ρ h);
    entries = λ is h hi. b.entries is h hi ∙ a.entries is h hi;
    links = λ q k ρ h hk p.
        let first = a.links q k ρ h hk p in
        b.links q k ρ (a.places q ρ h) hk (ap is_present first ∙ p) ∙ first;
  }

  -- The walk ended at the table below, linked; or no page was left.
  pub record Reached (mem : Table ℕ) (root : ℕ) (place : Places) (p i : ℕ) (π : List ℕ) (q : ℕ)
      (mem' : Table ℕ) (st' : State) : Type 0 where
    pub place' : Places
    pub extends : Extends mem root place mem' place' st'
    pub result :
        ((q ≡ 0) × ((alloc_page st').0 ≡ 0))
        ⊎ ((0 < q)
            × (place' q ≡ some (i ∷ π))
            × (is_table (mem' (p + i * 8)) ≡ true)
            × (address_of (mem' (p + i * 8)) ≡ q))

  module _ (mem : Table ℕ) (root : ℕ) (place : Places) (st : State) (v : IsReady mem root place st)
      (p i : ℕ) (π : List ℕ) (at_p : place p ≡ some π) (shallow : length π < 3) (small : i < 512)
      (leads : is_present (mem (p + i * 8)) ≡ true → is_table (mem (p + i * 8)) ≡ true) where
    installed-Extends :
        (n : ℕ) (st' : State)
        → is_present (mem (p + i * 8)) ≡ false
        → IsGood st'
        → IsFresh Free st n st'
        → Extends mem root place
            (store (zero_page n mem) (p + i * 8) (n / 8 * 8 + 7))
            (store place n (some (i ∷ π)))
            st'
    installed-Extends n st' missing good f =
        let fresh = v.apart n f.was_free in
        record {
          ready = record {
            tree =
                installed-IsTree mem root place v.tree p i n π at_p shallow small missing fresh
                  f.page f.positive f.reach;
            good = good;
            apart = λ q h.
                store-miss place n q (some (i ∷ π)) (λ e. f.taken (rw e at h))
                ∙ v.apart q (f.shrinks q h);
          };
          places =
              place-kept mem root place v.tree p i n π at_p shallow small missing fresh f.page
                f.positive f.reach;
          entries = λ is full hi.
              installed-entry_at mem root place v.tree p i n π at_p shallow small missing fresh
                f.page f.positive f.reach root [] is v.tree.at_root (omega (arith, full)) hi;
          links = λ q k ρ at_q hk here.
              kept mem root place v.tree p i n π at_p shallow small missing fresh f.page f.positive
                f.reach q k ρ at_q hk (λ e. cc (here, missing, ap (λ a. is_present (mem a)) e));
        }

    pub walk_or_alloc-Reached :
        Reached mem root place p i π
          (walk_or_alloc frames p i mem st).0
          (walk_or_alloc frames p i mem st).1
          (walk_or_alloc frames p i mem st).2
    unfolding walk_or_alloc
    walk_or_alloc-Reached = elim (Bool-cases (is_present (mem (p + i * 8)))) [
      | inl here ↦
          rw (walk_or_alloc, here)
            (record {
              place' = place;
              extends = Extends-refl mem root place st v;
              result =
                  let at = v.tree.linked p π i at_p shallow small (leads here) in
                  inr (
                    (v.tree.aligned (address_of (mem (p + i * 8))) (i ∷ π) at).1,
                    at,
                    leads here,
                    refl,
                  );
            })
      | inr missing ↦
          let (good, given) = gives st v.good in
          elim given [
            | inl (empty, same) ↦
                rw (walk_or_alloc, missing, empty, same)
                  (record {
                    place' = place;
                    extends = Extends-refl mem root place st v;
                    result = inl (refl, empty);
                  })
            | inr f ↦
                let nz : ((alloc_page st).0 == 0) ≡ false = ground (arith, f.positive) in
                let fresh = v.apart (alloc_page st).0 f.was_free in
                rw (walk_or_alloc, missing, nz)
                  (record {
                    place' = store place (alloc_page st).0 (some (i ∷ π));
                    extends = installed-Extends (alloc_page st).0 (alloc_page st).1 missing good f;
                    result = inr (
                      f.positive,
                      place-new mem root place v.tree p i (alloc_page st).0 π at_p shallow small
                          missing fresh f.page f.positive f.reach,
                      link-table mem root place v.tree p i (alloc_page st).0 π at_p shallow small
                          missing fresh f.page f.positive f.reach,
                      link-address mem root place v.tree p i (alloc_page st).0 π at_p shallow small
                          missing fresh f.page f.positive f.reach,
                    );
                  })
          ]
    ]
