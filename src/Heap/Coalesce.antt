-- ===== src/Heap/Coalesce.antt =====
-- The merging of heap.rs leaves no two free neighbours, and undoes a split.
use sysrust.Common.{
  ℕ, ◌+◌, ◌^◌, ◌<◌, ◌≡◌, inl, inr, Bool, true, false, [], ◌∷◌, ◌++◌, arith, refl, ap, sym, ◌∙◌,
  Bool-cases, ◌&&◌,
}
use sysrust.Heap.{Block, Blocks, header_size, can_merge, merge, absorb, coalesce}
use sysrust.Heap.Tiling.{Tiled, Tiled-le, merge-Tiled}

abbrev pub both_free : Block → Block → Bool
both_free b c = b.is_free && c.is_free

-- No free header stands right behind another.
abbrev pub IsCoalesced : Blocks → Type 0
IsCoalesced [] = Unit {0}
IsCoalesced (b ∷ []) = Unit {0}
IsCoalesced (b ∷ (c ∷ rest)) = (both_free b c ≡ false) × IsCoalesced (c ∷ rest)

-- In a tiling the neighbours are adjacent in memory, so merging asks only that both be free.
pub can_merge-both_free :
    (cur next : Block) (rest : Blocks) (a e : ℕ)
    → e < 2 ^ 32
    → Tiled a (cur ∷ next ∷ rest) e
    → can_merge cur next ≡ both_free cur next
can_merge-both_free cur next rest a e small t = let room = Tiled-le rest _ e t.2.2 in ground arith

-- The list with a free header `cur` or an allocated one put in front of a coalesced list whose
-- first header is `next`, or like it.
cons-IsCoalesced :
    (cur next : Block) (bs : Blocks)
    → both_free cur next ≡ false
    → IsCoalesced bs
    → ((b : Block) (rest : Blocks) → bs ≡ b ∷ rest → b.is_free ≡ next.is_free)
    → IsCoalesced (cur ∷ bs)
cons-IsCoalesced cur next [] apart c same = tt
cons-IsCoalesced cur next (b ∷ rest) apart c same = (rw (same b rest refl) apart, c)

-- The first header of the merged list is as free as `cur`.
absorb-head :
    (rest : Blocks) (cur b : Block) (bs : Blocks)
    → absorb cur rest ≡ b ∷ bs
    → b.is_free ≡ cur.is_free
unfolding absorb
absorb-head [] cur b bs h = ground arith
absorb-head (next ∷ rest) cur b bs h = elim (Bool-cases (can_merge cur next)) [
  | inl m ↦ absorb-head rest (merge cur next) b bs (rw (absorb, m) at h)
  | inr k ↦ ground arith
]

absorb-IsCoalesced :
    (rest : Blocks) (cur : Block) (a e : ℕ)
    → e < 2 ^ 32
    → Tiled a (cur ∷ rest) e
    → IsCoalesced (absorb cur rest)
unfolding absorb
absorb-IsCoalesced [] cur a e small t = tt
absorb-IsCoalesced (next ∷ rest) cur a e small t = elim (Bool-cases (can_merge cur next)) [
  | inl m ↦
      rw (absorb, m)
        (absorb-IsCoalesced rest (merge cur next) a e small (merge-Tiled cur next rest a e small t))
  | inr k ↦
      rw (absorb, k)
        (cons-IsCoalesced cur next (absorb next rest)
          (sym (can_merge-both_free cur next rest a e small t) ∙ k)
          (absorb-IsCoalesced rest next _ e small t.2) (λ b bs h. absorb-head rest next b bs h))
]

pub coalesce-IsCoalesced :
    (bs : Blocks) (a e : ℕ) → e < 2 ^ 32 → Tiled a bs e → IsCoalesced (coalesce bs)
unfolding coalesce
coalesce-IsCoalesced [] a e small t = tt
coalesce-IsCoalesced (b ∷ bs) a e small t = absorb-IsCoalesced bs b a e small t

absorb_idle :
    (rest : Blocks) (cur : Block) (a e : ℕ)
    → e < 2 ^ 32
    → Tiled a (cur ∷ rest) e
    → IsCoalesced (cur ∷ rest)
    → absorb cur rest ≡ cur ∷ rest
unfolding absorb
absorb_idle [] cur a e small t c = refl
absorb_idle (next ∷ rest) cur a e small t c =
    let k = can_merge-both_free cur next rest a e small t ∙ c.0 in
    rw (absorb, k) (ap (λ l. cur ∷ l) (absorb_idle rest next _ e small t.2 c.1))

-- A coalesced list is left as it is.
pub coalesce_idle :
    (bs : Blocks) (a e : ℕ) → e < 2 ^ 32 → Tiled a bs e → IsCoalesced bs → coalesce bs ≡ bs
unfolding coalesce
coalesce_idle [] a e small t c = refl
coalesce_idle (b ∷ bs) a e small t c = absorb_idle bs b a e small t c

-- `b1` and `b2` are the free halves of `b`, split with a header between them.
pub record Halves (b b1 b2 : Block) : Type 0 where
  pub free : b.is_free ≡ true
  pub free1 : b1.is_free ≡ true
  pub free2 : b2.is_free ≡ true
  pub start : b1.addr ≡ b.addr
  pub middle : b2.addr ≡ b.addr + header_size + b1.size
  pub sizes : b1.size + header_size + b2.size ≡ b.size

merge-Halves :
    (b b1 b2 : Block)
    → Halves b b1 b2
    → b.addr + header_size + b.size < 2 ^ 32
    → (can_merge b1 b2 ≡ true) × (merge b1 b2 ≡ b)
merge-Halves b b1 b2 h small = (ground arith, ground arith)

merge_assoc :
    (cur b b1 b2 : Block)
    → Halves b b1 b2
    → cur.is_free ≡ true
    → b.addr ≡ cur.addr + header_size + cur.size
    → b.addr + header_size + b.size < 2 ^ 32
    → (can_merge cur b1 ≡ true)
      × (can_merge (merge cur b1) b2 ≡ true)
      × (can_merge cur b ≡ true)
      × (merge (merge cur b1) b2 ≡ merge cur b)
merge_assoc cur b b1 b2 h free at small = (ground arith, ground arith, ground arith, ground arith)

absorb_split :
    (front : Blocks) (cur b b1 b2 : Block) (back : Blocks) (a e : ℕ)
    → e < 2 ^ 32
    → Halves b b1 b2
    → Tiled a (cur ∷ front ++ (b ∷ back)) e
    → absorb cur (front ++ (b1 ∷ b2 ∷ back)) ≡ absorb cur (front ++ (b ∷ back))
unfolding absorb
absorb_split [] cur b b1 b2 back a e small h t =
    let room : b.addr + header_size + b.size < 2 ^ 32 =
      omega (arith, t.2.0, Tiled-le back _ e t.2.2) in
    let (mh, eh) = merge-Halves b b1 b2 h room in
    elim (Bool-cases cur.is_free) [
      | inl free ↦
          let (m1, m2, m, eq) = merge_assoc cur b b1 b2 h free (omega (arith, t.0, t.2.0)) room in
          rw (absorb, m1, m2, m) (ap (λ c. absorb c back) eq)
      | inr used ↦
          let k1 : can_merge cur b1 ≡ false = ground arith in
          let k : can_merge cur b ≡ false = ground arith in
          rw (absorb, k1, k, mh) (ap (λ c. cur ∷ absorb c back) eh)
    ]
absorb_split (c ∷ front) cur b b1 b2 back a e small h t = elim (Bool-cases (can_merge cur c)) [
  | inl m ↦
      rw (absorb, m)
        (absorb_split front (merge cur c) b b1 b2 back a e small h
          (merge-Tiled cur c (front ++ (b ∷ back)) a e small t))
  | inr k ↦ rw (absorb, k) (ap (λ l. cur ∷ l) (absorb_split front c b b1 b2 back _ e small h t.2))
]

-- Splitting a free block leaves the merged list the same.
pub coalesce_split :
    (front : Blocks) (b b1 b2 : Block) (back : Blocks) (a e : ℕ)
    → e < 2 ^ 32
    → Halves b b1 b2
    → Tiled a (front ++ (b ∷ back)) e
    → coalesce (front ++ (b1 ∷ b2 ∷ back)) ≡ coalesce (front ++ (b ∷ back))
unfolding coalesce absorb
coalesce_split [] b b1 b2 back a e small h t =
    let (mh, eh) = merge-Halves b b1 b2 h (omega (arith, t.0, Tiled-le back _ e t.2)) in
    rw (absorb, mh) (ap (λ c. absorb c back) eh)
coalesce_split (c ∷ front) b b1 b2 back a e small h t =
    absorb_split front c b b1 b2 back a e small h t
