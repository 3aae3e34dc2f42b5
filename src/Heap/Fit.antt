-- ===== src/Heap/Fit.antt =====
-- The block that the search of `kmalloc` in heap.rs hands out, and what it leaves of it.
use sysrust.Common.{
  ℕ, ◌+◌, ◌-◌, ◌%◌, ◌^◌, ◌≤◌, ◌<◌, ◌≡◌, ◌⊎◌, inl, inr, true, false, some, [], ◌∷◌, arith, refl,
  Bool-cases, leb,
}
use sysrust.Heap.{Block, Blocks, header_size, min_split, try_alloc, first_fit}
use sysrust.Heap.Tiling.{Tiled}
use sysrust.Heap.Replace.{first_fit-Fitted, Replaced-Tiled}

-- The header `b`, of free bytes enough, gives way to an allocated header at the same address; what is
-- left over, if it can hold a header and 16 bytes, to a free header behind it.
pub record Carved (n ptr : ℕ) (b : Block) (here : Blocks) : Type 0 where
  pub was_free : b.is_free ≡ true
  pub enough : n ≤ b.size
  pub pointer : ptr ≡ b.addr + header_size
  pub shape :
      (b.size < n + header_size + min_split) × (here ≡ record b { is_free = false } ∷ [])
      ⊎ (n + header_size + min_split ≤ b.size)
        × (here
            ≡ record { addr = b.addr; size = n; is_free = false }
              ∷ record {
                addr = b.addr + header_size + n;
                size = b.size - n - header_size;
                is_free = true;
              }
              ∷ [])

pub try_alloc-Carved :
    (b : Block) (n ptr : ℕ) (here : Blocks)
    → b.size + header_size + min_split < 2 ^ 32
    → try_alloc b n ≡ some (ptr, here)
    → Carved n ptr b here
unfolding try_alloc
try_alloc-Carved b n ptr here small h = record {
  was_free = ground arith;
  enough = ground arith;
  pointer = ground arith;
  shape = elim (Bool-cases (leb ((n + header_size + min_split) % 2 ^ 32) b.size)) [
    | inl fits ↦ inr (ground arith, ground arith)
    | inr tight ↦ inl (ground arith, ground arith)
  ];
}

pub Carved-Tiled :
    (n ptr m : ℕ) (b : Block) (here : Blocks)
    → Carved n ptr b here
    → n % 8 ≡ 0
    → b.addr ≡ m
    → b.size % 8 ≡ 0
    → Tiled m here (m + header_size + b.size)
Carved-Tiled n ptr m b here c al at size = elim c.shape [
  | inl whole ↦ rw whole.1 (at, size, refl)
  | inr split ↦ rw split.1 (at, al, (omega arith, omega arith, omega arith))
]

-- A successful search keeps the tiling.
pub first_fit-Tiled :
    (bs : Blocks) (n ptr : ℕ) (bs' : Blocks) (a e : ℕ)
    → first_fit n bs ≡ some (ptr, bs')
    → n % 8 ≡ 0
    → e + header_size + min_split < 2 ^ 32
    → Tiled a bs e
    → Tiled a bs' e
first_fit-Tiled bs n ptr bs' a e h al small t =
    let f = first_fit-Fitted bs n ptr bs' h in
    Replaced-Tiled a e f.replaced
      (λ m at size room.
        Carved-Tiled n ptr m f.block f.here
          (try_alloc-Carved f.block n ptr f.here (omega arith) f.taken) al at size)
      t
