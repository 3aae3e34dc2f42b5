-- ===== src/Heap/Tiling.antt =====
-- The headers of heap.rs tile the heap: each stands exactly behind the bytes of the one before it.
use sysrust.Common.{ℕ, ◌+◌, ◌%◌, ◌^◌, ◌≤◌, ◌<◌, ◌≡◌, inl, inr, [], ◌∷◌, ◌++◌, arith, Bool-cases}
use sysrust.Heap.{Block, Blocks, header_size, can_merge, merge, absorb, coalesce}

-- From `a` to `e` without a gap, each size a multiple of 8.
abbrev pub Tiled : ℕ → Blocks → ℕ → Type 0
Tiled a [] e = a ≡ e
Tiled a (b ∷ bs) e = (b.addr ≡ a) × (b.size % 8 ≡ 0) × Tiled (a + header_size + b.size) bs e

pub Tiled-le : (bs : Blocks) (a e : ℕ) → Tiled a bs e → a ≤ e
Tiled-le [] a e t = omega arith
Tiled-le (b ∷ bs) a e t = omega (arith, Tiled-le bs _ e t.2)

pub Tiled-append : (bs cs : Blocks) (a m e : ℕ) → Tiled a bs m → Tiled m cs e → Tiled a (bs ++ cs) e
Tiled-append [] cs a m e t u = rw t u
Tiled-append (b ∷ bs) cs a m e t u = (t.0, t.1, Tiled-append bs cs _ m e t.2 u)

-- Within 4 GiB the sizes that a merge adds do not wrap.
pub merge-size :
    (cur next : Block) (rest : Blocks) (a e : ℕ)
    → e < 2 ^ 32
    → Tiled a (cur ∷ next ∷ rest) e
    → (merge cur next).size ≡ cur.size + header_size + next.size
merge-size cur next rest a e small t = omega (arith, Tiled-le rest _ e t.2.2)

pub merge-Tiled :
    (cur next : Block) (rest : Blocks) (a e : ℕ)
    → e < 2 ^ 32
    → Tiled a (cur ∷ next ∷ rest) e
    → Tiled a (merge cur next ∷ rest) e
merge-Tiled cur next rest a e small t =
    let size = merge-size cur next rest a e small t in
    let place : a + header_size + (merge cur next).size
        ≡ a + header_size + cur.size + header_size + next.size =
      omega arith in
    (t.0, omega arith, rw place t.2.2)

pub absorb-Tiled :
    (rest : Blocks) (cur : Block) (a e : ℕ)
    → e < 2 ^ 32
    → Tiled a (cur ∷ rest) e
    → Tiled a (absorb cur rest) e
unfolding absorb
absorb-Tiled [] cur a e small t = t
absorb-Tiled (next ∷ rest) cur a e small t = elim (Bool-cases (can_merge cur next)) [
  | inl m ↦
      rw (absorb, m)
        (absorb-Tiled rest (merge cur next) a e small (merge-Tiled cur next rest a e small t))
  | inr k ↦ rw (absorb, k) (t.0, t.1, absorb-Tiled rest next _ e small t.2)
]

pub coalesce-Tiled : (bs : Blocks) (a e : ℕ) → e < 2 ^ 32 → Tiled a bs e → Tiled a (coalesce bs) e
unfolding coalesce
coalesce-Tiled [] a e small t = t
coalesce-Tiled (b ∷ bs) a e small t = absorb-Tiled bs b a e small t
