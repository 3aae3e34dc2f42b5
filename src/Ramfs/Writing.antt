-- ===== src/Ramfs/Writing.antt =====
-- What a write of src/ramfs.rs leaves for the reads after it.
use sysrust.Common.{
  ℕ, zero, suc, ◌+◌, ◌-◌, ◌^◌, ◌≡◌, ◌≤◌, ◌<◌, List, [], ◌∷◌, Bool, true, false, some, ltb, leb,
  ◌==◌, if◌then◌else◌, arith, refl, ap, ◌∙◌, sym, Bool-cases, inl, inr, ◌⊎◌, ltb-false, ltb→lt,
  length, Table, max,
}
use sysrust.Ramfs.{
  RamfsFile, bytes_from, overwrite, clamped, ramfs_read, grow, WriteResult, enlarged, put_bytes,
  ramfs_write,
}
use sysrust.Ramfs.Growth.{pow2, pow2-le, grow_ends}

-- The size fits the capacity, which is a power of two from 256 to 2^31, and the bytes past the
-- size are zero.
abbrev pub IsFile : RamfsFile → Type 0
IsFile f =
    (f.size ≤ f.capacity)
    × ((k : ℕ) × (8 ≤ k) × (k ≤ 31) × (f.capacity ≡ pow2 k))
    × ((i : ℕ) → f.size ≤ i → f.buffer i ≡ 0)

-- Outside the range that is written.
abbrev pub Outside : (offset n i : ℕ) → Type 0
Outside offset n i = (i < offset) ⊎ (offset + n ≤ i)

overwrite-Outside :
    (b : Table ℕ) (at : ℕ) (xs : List ℕ) (i : ℕ)
    → Outside at (length xs) i
    → overwrite b at xs i ≡ b i
unfolding overwrite
overwrite-Outside b at [] i out = refl
overwrite-Outside b at (x ∷ xs) i out =
    let apart : (i == at) ≡ false = elim out [ inl h ↦ ground arith | inr h ↦ ground arith ] in
    let further : Outside (at + 1) (length xs) i = elim out [
      | inl h ↦ inl (omega (arith, h))
      | inr h ↦ inr (omega (arith, h))
    ] in
    rw apart (overwrite-Outside b (at + 1) xs i further)

bytes_from_ext :
    (a b : Table ℕ) (n i : ℕ) → ((j : ℕ) → i ≤ j → a j ≡ b j) → bytes_from a n i ≡ bytes_from b n i
unfolding bytes_from
bytes_from_ext a b zero i same = refl
bytes_from_ext a b (suc n) i same =
    rw (same i (omega arith), bytes_from_ext a b n (i + 1) (λ j h. same j (omega (arith, h)))) refl

bytes_from-overwrite :
    (b : Table ℕ) (at : ℕ) (xs : List ℕ) → bytes_from (overwrite b at xs) (length xs) at ≡ xs
unfolding bytes_from overwrite
bytes_from-overwrite b at [] = refl
bytes_from-overwrite b at (x ∷ xs) =
    let here : (at == at) ≡ true = ground arith in
    let later : (j : ℕ)
        → at + 1 ≤ j
        → (if j == at then x else overwrite b (at + 1) xs j) ≡ overwrite b (at + 1) xs j =
      λ j h. let apart : (j == at) ≡ false = ground (arith, h) in rw apart refl in
    rw here (
      ap (λ ys. x ∷ ys)
        (bytes_from_ext (λ i. if i == at then x else overwrite b (at + 1) xs i)
            (overwrite b (at + 1) xs) (length xs) (at + 1) later
          ∙ bytes_from-overwrite b (at + 1) xs))

-- A read that ends within the file is not cut.
read_whole :
    (offset n : ℕ) (f : RamfsFile)
    → offset + n ≤ f.size
    → f.size ≤ 2 ^ 31
    → ramfs_read offset n f ≡ bytes_from f.buffer n offset
unfolding ramfs_read bytes_from
read_whole offset n f inside small = elim (Bool-cases (leb f.size offset)) [
  | inl past ↦
      let nothing : n ≡ 0 = ground (arith, inside, past) in rw (ramfs_read, past, nothing) refl
  | inr before ↦
      let fits : clamped offset n f.size ≡ n = ground (arith, inside, small) in
      rw (ramfs_read, before, fits) refl
]

-- What a write promises: the file that it leaves, or a buffer that was too small where kmalloc
-- returned null.
abbrev pub Written :
    (granted : ℕ → Bool) (offset : ℕ) (bytes : List ℕ) (f : RamfsFile) → WriteResult → Type 0
Written granted offset bytes f (WriteResult.wrote f') =
    IsFile f'
    × (f'.size ≡ max f.size (offset + length bytes))
    × (ramfs_read offset (length bytes) f' ≡ bytes)
    × ((i : ℕ) → Outside offset (length bytes) i → f'.buffer i ≡ f.buffer i)
Written granted offset bytes f WriteResult.failed =
    (f.capacity < offset + length bytes) × ((c : ℕ) × (granted c ≡ false))
Written granted offset bytes f WriteResult.running = ⊥

module _ (granted : ℕ → Bool) (offset : ℕ) (bytes : List ℕ) where
  put_bytes-Written :
      (f : RamfsFile)
      → IsFile f
      → offset + length bytes ≤ f.capacity
      → Written granted offset bytes f (WriteResult.wrote (put_bytes offset bytes f))
  unfolding put_bytes
  put_bytes-Written f (fits, (k, low, high, power), zeros) room =
      let f' = put_bytes offset bytes f in
      let grown : f'.size ≡ max f.size (offset + length bytes) = ground arith in
      let bound = pow2-le (31 - k) k 31 (omega (arith, high)) in
      let small : f'.capacity ≤ 2 ^ 31 = omega (arith, power, bound) in
      let inside : f'.size ≤ f'.capacity = omega (arith, grown, fits, room) in
      (
        (
          inside,
          (k, low, high, power),
          λ i h.
              overwrite-Outside f.buffer offset bytes i (inr (omega (arith, h, grown)))
              ∙ zeros i (omega (arith, h, grown)),
        ),
        grown,
        read_whole offset (length bytes) f' (omega (arith, grown)) (omega (arith, inside, small))
            ∙ bytes_from-overwrite f.buffer offset bytes,
        overwrite-Outside f.buffer offset bytes,
      )

  enlarged_same :
      (c : ℕ) (f : RamfsFile) → IsFile f → (i : ℕ) → (enlarged c f).buffer i ≡ f.buffer i
  enlarged_same c f file i = elim (Bool-cases (ltb i f.size)) [
    | inl below ↦ rw below refl
    | inr past ↦ rw past (sym (file.2 i (ltb-false i f.size past)))
  ]

  -- The same for a file whose buffer has been replaced by a larger copy.
  enlarged-Written :
      (f : RamfsFile) (k : ℕ)
      → IsFile f
      → 8 ≤ k
      → k ≤ 31
      → f.size ≤ pow2 k
      → offset + length bytes ≤ pow2 k
      → Written granted offset bytes f
          (WriteResult.wrote (put_bytes offset bytes (enlarged (pow2 k) f)))
  enlarged-Written f k file low high fits room =
      let g = enlarged (pow2 k) f in
      let same = enlarged_same (pow2 k) f file in
      let (a, b, c, d) =
        put_bytes-Written g (fits, (k, low, high, refl), λ i h. same i ∙ file.2 i h) room in
      (a, b, c, λ i out. d i out ∙ same i)

  module _ (fuel : ℕ) (f : RamfsFile) (range : offset + length bytes ≤ 2 ^ 31)
      (file : IsFile f) where
    write_fits :
        ltb f.capacity (offset + length bytes) ≡ false
        → ramfs_write fuel granted offset bytes f ≡ WriteResult.wrote (put_bytes offset bytes f)
    unfolding ramfs_write
    write_fits room =
        let first : ltb (2 ^ 32 - 1 - offset) (length bytes) ≡ false = ground (arith, range) in
        rw (ramfs_write, first, room) refl

    write_grows :
        (c : ℕ)
        → ltb f.capacity (offset + length bytes) ≡ true
        → grow fuel f.capacity (offset + length bytes) ≡ some c
        → 256 ≤ f.capacity
        → ramfs_write fuel granted offset bytes f ≡ (
            if granted c
            then WriteResult.wrote (put_bytes offset bytes (enlarged c f))
            else WriteResult.failed)
    unfolding ramfs_write
    write_grows c full ends large =
        let first : ltb (2 ^ 32 - 1 - offset) (length bytes) ≡ false = ground (arith, range) in
        let start : ltb f.capacity 256 ≡ false = ground (arith, large) in
        rw (ramfs_write, first, full, start, ends) refl

    -- For a file whose size fits its capacity, a power of two from 256 to 2^31, and whose bytes
    -- past the size are zero, a write that ends by 2^31, with fuel for 32 rounds of the doubling
    -- loop, always ends: either it leaves such a file, whose size is the larger of the old one and
    -- the end of the write, from which a read of the range gives the bytes written, and whose
    -- other bytes are as they were, or the capacity was too small and kmalloc returned null.
    pub ramfs_write-Written :
        32 ≤ fuel → Written granted offset bytes f (ramfs_write fuel granted offset bytes f)
    ramfs_write-Written enough =
        let (fits, (k, low, high, power), zeros) = file in
        elim (Bool-cases (ltb f.capacity (offset + length bytes))) [
          | inr room ↦
              rw (write_fits room)
                (put_bytes-Written f file (ltb-false f.capacity (offset + length bytes) room))
          | inl full ↦
              let (m, more, top, ends, holds) =
                grow_ends fuel k (offset + length bytes) high (omega (arith, enough)) range in
              let bound = pow2-le (k - 8) 8 k (omega (arith, low)) in
              let ends_here : grow fuel f.capacity (offset + length bytes) ≡ some (pow2 m) =
                ap (λ c. grow fuel c (offset + length bytes)) power ∙ ends in
              let short = ltb→lt f.capacity (offset + length bytes) full in
              elim (Bool-cases (granted (pow2 m))) [
                | inl given ↦
                    rw (write_grows (pow2 m) full ends_here (omega (arith, power, bound)), given)
                      (enlarged-Written f m file (omega (arith, low, more)) top
                        (omega (arith, fits, short, holds)) holds)
                | inr refused ↦
                    rw (write_grows (pow2 m) full ends_here (omega (arith, power, bound)), refused)
                      (short, (pow2 m, refused))
              ]
        ]
