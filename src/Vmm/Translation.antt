-- ===== src/Vmm/Translation.antt =====
-- The translation of src/vmm.rs as a function of the entry that the four indices lead to.
use sysrust.Common.{
  ℕ, ◌+◌, ◌*◌, ◌%◌, ◌^◌, ◌≡◌, ◌≢◌, List, [], ◌∷◌, true, false, Option-cases, none, some, Table,
  arith, refl, ap, ◌∙◌, sym, ◌==◌, inl, inr,
}
use sysrust.Vmm.{
  is_present, address_of, Vmm, get_physical, pml4_index, pdpt_index, pd_index, pt_index,
}
use sysrust.Vmm.Tree.{Places, IsTree, entry_at, joined, entry_at-present}
use sysrust.Vmm.Pages.{
  page_of, indices, same_page, page_of-indices, translated, descend, IsLink, IsSmall,
}

abbrev pub path : (virt : ℕ) → List ℕ
path virt = pt_index virt ∷ pd_index virt ∷ pdpt_index virt ∷ pml4_index virt ∷ []

-- get_physical follows the four indices.
pub get_physical-some :
    (v x : ℕ) (s : Vmm) (place : Places)
    → IsTree s.mem s.pml4 place
    → entry_at s.mem s.pml4 (indices v) ≡ some x
    → get_physical v s ≡ translated x v
get_physical-some v x s place tree e = elim (descend v s place tree (λ z. absurd (cc (e, z)))) [
  | inl missing ↦
      let absent : 0 ≡ x = cc (e, missing.0) in missing.1 ∙ ap (λ y. translated y v) absent
  | inr d ↦
      let found : s.mem (d.table + pt_index v * 8) ≡ x = cc (e, d.entry) in
      d.gets ∙ ap (λ y. translated y v) found
]

-- Tables that lead to one and the same entry translate the same.
pub same_translation :
    (v : ℕ) (s s' : Vmm) (place place' : Places)
    → IsTree s.mem s.pml4 place
    → IsTree s'.mem s'.pml4 place'
    → IsSmall v s
    → entry_at s'.mem s'.pml4 (indices v) ≡ entry_at s.mem s.pml4 (indices v)
    → get_physical v s' ≡ get_physical v s
same_translation v s s' place place' tree tree' small e =
    elim (Option-cases (entry_at s.mem s.pml4 (indices v))) [
      | inl z ↦ absurd (small z)
      | inr (x, h) ↦
          get_physical-some v x s' place' tree' (e ∙ h) ∙ sym (get_physical-some v x s place tree h)
    ]

pub page_eq : (a b : ℕ) → a ≡ b → (a == b) ≡ true
page_eq a b e = ground (arith, e)

pub page_ne : (a b : ℕ) → (a == b) ≡ false → a ≢ b
page_ne a b h e = ground (arith, h, e)

pub other_path : (v virt : ℕ) → page_of v ≢ page_of virt → joined (indices v) [] ≢ path virt
other_path v virt apart e = apart (page_of-indices v virt (cc e) (cc e) (cc e) (cc e))

pub same_indices : (v virt : ℕ) → page_of v ≡ page_of virt → indices v ≡ indices virt
same_indices v virt e = let h = same_page v virt e in cc (h.0, h.1, h.2, h.3)

pub present_entry :
    (phys flags : ℕ) → flags % 2 ≡ 1 → is_present (address_of phys + flags % 2 ^ 12) ≡ true
present_entry phys flags odd =
    let low : (address_of phys + flags % 2 ^ 12) % 2 ≡ 1 = omega (arith, odd) in rw low refl

pub translated-entry :
    (phys flags v : ℕ)
    → flags % 2 ≡ 1
    → translated (address_of phys + flags % 2 ^ 12) v ≡ address_of phys + v % 4096
translated-entry phys flags v odd =
    let address : address_of (address_of phys + flags % 2 ^ 12) ≡ address_of phys = omega arith in
    rw (present_entry phys flags odd, address) refl

-- Under a link there is no large page on the way either.
pub small_under :
    (mem : Table ℕ) (p i q j : ℕ) (rest : List ℕ)
    → IsLink mem p i q
    → entry_at mem p (i ∷ j ∷ rest) ≢ none
    → entry_at mem q (j ∷ rest) ≢ none
small_under mem p i q j rest l small z =
    small (entry_at-present mem p i j rest l.0 ∙ ap (λ t. entry_at mem t (j ∷ rest)) l.1 ∙ z)
