-- ===== src/Heap/Replace.antt =====
-- What `try_alloc` within the search of `kmalloc`, and the write of `kfree`, do to the list of heap.rs:
-- one header is replaced and the rest stays.
use sysrust.Common.{
  ℕ, ◌+◌, ◌%◌, ◌≤◌, ◌≡◌, inl, inr, Bool, true, false, none, some, [], ◌∷◌, ◌++◌, arith, refl, ap,
  Option-cases, Bool-cases, ◌==◌, leb, ◌&&◌,
}
use sysrust.Heap.{Block, Blocks, header_size, try_alloc, first_fit, release}
use sysrust.Heap.Tiling.{Tiled, Tiled-append, Tiled-le}

-- `bs'` is `bs` with `here` in the place of the header `b`.
pub record Replaced (bs bs' : Blocks) (b : Block) (here : Blocks) : Type 0 where
  pub front : Blocks
  pub back : Blocks
  pub before : bs ≡ front ++ (b ∷ back)
  pub after : bs' ≡ front ++ (here ++ back)

Replaced-cons :
    (c : Block) {bs bs' : Blocks} {b : Block} {here : Blocks}
    → Replaced bs bs' b here
    → Replaced (c ∷ bs) (c ∷ bs') b here
Replaced-cons c r = record {
  front = c ∷ r.front;
  back = r.back;
  before = ap (λ l. c ∷ l) r.before;
  after = ap (λ l. c ∷ l) r.after;
}

-- No header of the list takes the request.
abbrev pub NoneFits : ℕ → Blocks → Type 0
NoneFits n [] = Unit {0}
NoneFits n (b ∷ bs) = ((b.is_free && leb n b.size) ≡ false) × NoneFits n bs

-- The first header that takes the request is the one that is replaced.
pub record Fitted (n ptr : ℕ) (bs bs' : Blocks) : Type 0 where
  pub block : Block
  pub here : Blocks
  pub taken : try_alloc block n ≡ some (ptr, here)
  pub replaced : Replaced bs bs' block here
  pub first : NoneFits n replaced.front

try_alloc-none : (b : Block) (n : ℕ) → try_alloc b n ≡ none → (b.is_free && leb n b.size) ≡ false
unfolding try_alloc
try_alloc-none b n h = ground arith

pub first_fit-Fitted :
    (bs : Blocks) (n ptr : ℕ) (bs' : Blocks)
    → first_fit n bs ≡ some (ptr, bs')
    → Fitted n ptr bs bs'
unfolding first_fit Replaced-cons
first_fit-Fitted [] n ptr bs' h = absurd (cc)
first_fit-Fitted (b ∷ bs) n ptr bs' h = elim (Option-cases (try_alloc b n)) [
  | inl e ↦ elim (Option-cases (first_fit n bs)) [
    | inl e' ↦ absurd (ground arith)
    | inr ((p, rest), e') ↦
        let f = first_fit-Fitted bs n p rest e' in
        let same : (p ≡ ptr) × (bs' ≡ b ∷ rest) = ground arith in
        rw (← same.0, same.1)
          (record {
            block = f.block;
            here = f.here;
            taken = f.taken;
            replaced = Replaced-cons b f.replaced;
            first = (try_alloc-none b n e, f.first);
          })
  ]
  | inr ((p, here), e) ↦
      let same : (p ≡ ptr) × (bs' ≡ here ++ bs) = ground arith in
      rw (← same.0, same.1)
        (record {
          block = b;
          here = here;
          taken = e;
          replaced = record { front = []; back = bs; before = refl; after = refl };
          first = tt;
        })
]

-- Where the search fails no header takes the request.
pub first_fit-none : (bs : Blocks) (n : ℕ) → first_fit n bs ≡ none → NoneFits n bs
unfolding first_fit
first_fit-none [] n h = tt
first_fit-none (b ∷ bs) n h = elim (Option-cases (try_alloc b n)) [
  | inl e ↦ (try_alloc-none b n e, first_fit-none bs n (ground arith))
  | inr ((p, here), e) ↦ absurd (ground arith)
]

-- `release` finds the header at the address and marks it free.
pub record Released (hdr : ℕ) (was_free : Bool) (bs bs' : Blocks) : Type 0 where
  pub block : Block
  pub place : block.addr ≡ hdr
  pub was : block.is_free ≡ was_free
  pub replaced : Replaced bs bs' block (record block { is_free = true } ∷ [])

pub release-Released :
    (bs : Blocks) (hdr : ℕ) (was_free : Bool) (bs' : Blocks)
    → release hdr bs ≡ some (was_free, bs')
    → Released hdr was_free bs bs'
unfolding release
release-Released [] hdr w bs' h = absurd (cc)
release-Released (b ∷ bs) hdr w bs' h = elim (Bool-cases (b.addr == hdr)) [
  | inl here ↦
      let same : (b.is_free ≡ w) × (bs' ≡ record b { is_free = true } ∷ bs) = ground arith in
      record {
        block = b;
        place = ground arith;
        was = same.0;
        replaced = record { front = []; back = bs; before = refl; after = same.1 };
      }
  | inr away ↦ elim (Option-cases (release hdr bs)) [
    | inl e ↦ absurd (ground arith)
    | inr ((w', rest), e) ↦
        let r = release-Released bs hdr w' rest e in
        let same : (w' ≡ w) × (bs' ≡ b ∷ rest) = ground arith in
        rw (← same.0, same.1)
          (record {
            block = r.block;
            place = r.place;
            was = r.was;
            replaced = Replaced-cons b r.replaced;
          })
  ]
]

pub Tiled-prefix :
    (front back : Blocks) (a e : ℕ)
    → Tiled a (front ++ back) e
    → (m : ℕ) × Tiled a front m × Tiled m back e
Tiled-prefix [] back a e t = (a, refl, t)
Tiled-prefix (b ∷ front) back a e t =
    let (m, u, v) = Tiled-prefix front back (a + header_size + b.size) e t.2 in
    (m, (t.0, t.1, u), v)

-- A replacement that tiles what the header tiled keeps the tiling.
pub Replaced-Tiled :
    {bs bs' : Blocks} {b : Block} {here : Blocks} (a e : ℕ)
    → Replaced bs bs' b here
    → ((m : ℕ)
        → b.addr ≡ m
        → b.size % 8 ≡ 0
        → m + header_size + b.size ≤ e
        → Tiled m here (m + header_size + b.size))
    → Tiled a bs e
    → Tiled a bs' e
Replaced-Tiled {b} {here} a e r keep t =
    let (m, u, v) = Tiled-prefix r.front (b ∷ r.back) a e (rw r.before at t) in
    rw r.after (
      Tiled-append r.front (here ++ r.back) a m e u (
        Tiled-append here r.back m (m + header_size + b.size) e
          (keep m v.0 v.1 (Tiled-le r.back _ e v.2)) v.2))
