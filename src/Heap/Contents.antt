-- ===== src/Heap/Contents.antt =====
-- The allocations that the header list of heap.rs records, apart from the free space between them.
use sysrust.Common.{
  ℕ, ◌+◌, ◌≤◌, ◌≡◌, ◌≢◌, ◌⊎◌, ◌↔◌, inl, inr, true, false, [], ◌∷◌, ◌++◌, arith, Bool-cases,
}
use sysrust.Heap.{Block, Blocks, header_size, can_merge, merge, absorb, coalesce}
use sysrust.Heap.Tiling.{Tiled, Tiled-le}
use sysrust.Heap.Replace.{Replaced, Tiled-prefix}

-- An allocation of `n` bytes at `p`.
abbrev pub Live : (p n : ℕ) → Blocks → Type 0
Live p n [] = ⊥
Live p n (b ∷ bs) = ((b.is_free ≡ false) × (b.addr + header_size ≡ p) × (b.size ≡ n)) ⊎ Live p n bs

module _ (p n : ℕ) where
  pub Live-append : (bs cs : Blocks) → Live p n (bs ++ cs) ↔ (Live p n bs ⊎ Live p n cs)
  Live-append [] cs = (λ l. inr l, λ s. elim s [ inl no_block ↦ absurd no_block | inr l ↦ l ])
  Live-append (b ∷ bs) cs =
      let (split, join) = Live-append bs cs in
      (
        λ l. elim l [
          | inl here ↦ inl (inl here)
          | inr there ↦ elim (split there) [ inl left ↦ inl (inr left) | inr right ↦ inr right ]
        ],
        λ s. elim s [
          | inl l ↦ elim l [ inl here ↦ inl here | inr there ↦ inr (join (inl there)) ]
          | inr r ↦ inr (join (inr r))
        ],
      )

  -- Merging free headers touches no allocation.
  absorb-Live : (rest : Blocks) (cur : Block) → Live p n (absorb cur rest) ↔ Live p n (cur ∷ rest)
  unfolding absorb
  absorb-Live [] cur = (λ l. l, λ l. l)
  absorb-Live (next ∷ rest) cur = elim (Bool-cases (can_merge cur next)) [
    | inl m ↦
        let (there, back) = absorb-Live rest (merge cur next) in
        let free : (cur.is_free ≡ true) × (next.is_free ≡ true) = ground arith in
        rw (absorb, m)
          (
            λ l. elim (there l) [ inl here ↦ absurd (ground arith) | inr more ↦ inr (inr more) ],
            λ l. elim l [
              | inl here ↦ absurd (ground arith)
              | inr more ↦ elim more [
                | inl here ↦ absurd (ground arith)
                | inr most ↦ back (inr most)
              ]
            ],
          )
    | inr k ↦
        let (there, back) = absorb-Live rest next in
        rw (absorb, k)
          (
            λ l. elim l [ inl here ↦ inl here | inr more ↦ inr (there more) ],
            λ l. elim l [ inl here ↦ inl here | inr more ↦ inr (back more) ],
          )
  ]

  pub coalesce-Live : (bs : Blocks) → Live p n (coalesce bs) ↔ Live p n bs
  unfolding coalesce
  coalesce-Live [] = (λ l. l, λ l. l)
  coalesce-Live (b ∷ bs) = absorb-Live bs b

  -- A replacement changes the allocations by those of what it puts in and takes out.
  pub Replaced-Live :
      {bs bs' : Blocks} {b : Block} {here : Blocks}
      → Replaced bs bs' b here
      → (Live p n bs' → (Live p n here) ⊎ Live p n bs)
        × (Live p n bs → (Live p n (b ∷ [])) ⊎ Live p n bs')
  Replaced-Live {b} {here} r =
      let (split, join) = Live-append r.front (b ∷ r.back) in
      let (split', join') = Live-append r.front (here ++ r.back) in
      let (split'', join'') = Live-append here r.back in
      rw (r.before, r.after)
        (
          λ l. elim (split' l) [
            | inl left ↦ inr (join (inl left))
            | inr more ↦ elim (split'' more) [
              | inl new ↦ inl new
              | inr right ↦ inr (join (inr (inr right)))
            ]
          ],
          λ l. elim (split l) [
            | inl left ↦ inr (join' (inl left))
            | inr more ↦ elim more [
              | inl old ↦ inl (inl old)
              | inr right ↦ inr (join' (inr (join'' (inr right))))
            ]
          ],
        )

  pub Live-range :
      (bs : Blocks) (a e : ℕ) → Tiled a bs e → Live p n bs → (a + header_size ≤ p) × (p + n ≤ e)
  Live-range [] a e t l = absurd l
  Live-range (b ∷ bs) a e t l = elim l [
    | inl here ↦ omega (arith, Tiled-le bs _ e t.2)
    | inr more ↦ omega (arith, Live-range bs _ e t.2 more)
  ]

-- Two allocations are one and the same, or lie apart with a header between them.
abbrev pub Apart : (p n q m : ℕ) → Type 0
Apart p n q m = (p + n + header_size ≤ q) ⊎ (q + m + header_size ≤ p)

pub Live-Apart :
    (p n q m : ℕ) (bs : Blocks) (a e : ℕ)
    → Tiled a bs e
    → Live p n bs
    → Live q m bs
    → p ≢ q
    → Apart p n q m
Live-Apart p n q m [] a e t l k ne = absurd l
Live-Apart p n q m (b ∷ bs) a e t l k ne = elim l [
  | inl here ↦ elim k [
    | inl here' ↦ absurd (ne (omega arith))
    | inr more ↦ inl (omega (arith, Live-range q m bs _ e t.2 more))
  ]
  | inr more ↦ elim k [
    | inl here ↦ inr (omega (arith, Live-range p n bs _ e t.2 more))
    | inr more' ↦ Live-Apart p n q m bs _ e t.2 more more' ne
  ]
]

-- No allocation begins where a free header's bytes do.
pub free-not-Live :
    {bs bs' : Blocks} {b : Block} {here : Blocks} (n a e : ℕ)
    → Replaced bs bs' b here
    → b.is_free ≡ true
    → Tiled a bs e
    → ¬ Live (b.addr + header_size) n bs
free-not-Live {b} n a e r free t l =
    let (m, u, v) = Tiled-prefix r.front (b ∷ r.back) a e (rw r.before at t) in
    elim ((Live-append (b.addr + header_size) n r.front (b ∷ r.back)).0 (rw r.before at l)) [
      | inl left ↦ omega (arith, v.0, Live-range (b.addr + header_size) n r.front a m u left)
      | inr more ↦ elim more [
        | inl same ↦ cc
        | inr right ↦ omega (
          arith,
          v.0,
          Live-range (b.addr + header_size) n r.back (m + header_size + b.size) e v.2 right,
        )
      ]
    ]

-- The bytes of a header lie between the ends of the tiling.
pub Replaced-range :
    {bs bs' : Blocks} {b : Block} {here : Blocks} (a e : ℕ)
    → Replaced bs bs' b here
    → Tiled a bs e
    → (a ≤ b.addr) × (b.addr + header_size + b.size ≤ e)
Replaced-range {b} a e r t =
    let (m, u, v) = Tiled-prefix r.front (b ∷ r.back) a e (rw r.before at t) in
    omega (arith, v.0, Tiled-le r.front a m u, Tiled-le r.back _ e v.2)
