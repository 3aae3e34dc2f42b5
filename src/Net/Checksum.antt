-- ===== src/Net/Checksum.antt =====
-- The Internet checksum of src/ipv4.rs, and why a packet that carries it passes the receiver's test.
use sysrust.Common.{
  ℕ, ◌+◌, ◌-◌, ◌*◌, ◌/◌, ◌%◌, ◌^◌, ◌≤◌, ◌<◌, ◌≡◌, [], ◌∷◌, ◌++◌, arith, length, ◌∙◌, ap,
}
use sysrust.Net.{Bytes, IsBytes}

-- The loop over 16-bit words in memory order, low byte first, and the odd last byte.
unfoldable pub sum_words : (sum : ℕ) → Bytes → ℕ
sum_words sum [] = sum
sum_words sum (a ∷ []) = (sum + a) % 2 ^ 32
sum_words sum (a ∷ b ∷ rest) = sum_words ((sum + (a + b * 256)) % 2 ^ 32) rest

-- The carries folded in twice, and the low 16 bits of the complement.
unfoldable pub fold_carries : ℕ → ℕ
fold_carries sum =
    let once = (sum / 2 ^ 16 + sum % 2 ^ 16) % 2 ^ 32 in
    let twice = (once + once / 2 ^ 16) % 2 ^ 32 in (2 ^ 32 - 1 - twice) % 2 ^ 16

-- `checksum(data, length)` for the first `length` bytes.
unfoldable pub checksum : Bytes → ℕ
unfolding sum_words fold_carries
checksum bs = fold_carries (sum_words 0 bs)

-- The words added without a bound.
total : Bytes → ℕ
total [] = 0
total (a ∷ []) = a
total (a ∷ b ∷ rest) = a + b * 256 + total rest

total-le : (bs : Bytes) → IsBytes bs → 2 * total bs ≤ 65535 * length bs + 65535
unfolding total
total-le [] h = omega arith
total-le (a ∷ []) h = omega arith
total-le (a ∷ b ∷ rest) h = omega (arith, h.0, h.1.0, total-le rest h.1.1)

-- Up to 65535 bytes the 32-bit sum does not wrap.
sum_words-total :
    (sum : ℕ) (bs : Bytes) → sum + total bs < 2 ^ 32 → sum_words sum bs ≡ sum + total bs
unfolding sum_words total
sum_words-total sum [] h = omega arith
sum_words-total sum (a ∷ []) h = omega arith
sum_words-total sum (a ∷ b ∷ rest) h =
    sum_words-total ((sum + (a + b * 256)) % 2 ^ 32) rest (omega arith) ∙ omega arith

-- The bytes before the field come in pairs, so that the field is a word of its own.
abbrev pub IsEven : Bytes → Type 0
IsEven [] = Unit {0}
IsEven (a ∷ []) = ⊥
IsEven (a ∷ b ∷ rest) = IsEven rest

total_field :
    (front back : Bytes) (c : ℕ)
    → IsEven front
    → total (front ++ (c % 256 ∷ c / 256 ∷ back)) ≡ total (front ++ (0 ∷ 0 ∷ back)) + c
unfolding total
total_field [] back c e = omega arith
total_field (a ∷ []) back c e = absurd e
total_field (a ∷ b ∷ front) back c e = omega (arith, total_field front back c e)

fold_carries-lt : (s : ℕ) → fold_carries s < 2 ^ 16
unfolding fold_carries
fold_carries-lt s = omega arith

fold_carries_zero : (s : ℕ) → s < 2 ^ 30 → fold_carries (s + fold_carries s) ≡ 0
unfolding fold_carries
fold_carries_zero s h = omega arith

checksum-total : (bs : Bytes) → total bs < 2 ^ 32 → checksum bs ≡ fold_carries (total bs)
unfolding checksum
checksum-total bs h = ap fold_carries (sum_words-total 0 bs (omega arith) ∙ omega arith)

-- For data of fewer than 2^14 bytes with a zero 16-bit field at an even offset, storing the
-- checksum of the data in that field gives data whose checksum is 0.
pub checksum_verifies :
    (front back : Bytes)
    → IsEven front
    → IsBytes (front ++ (0 ∷ 0 ∷ back))
    → length (front ++ (0 ∷ 0 ∷ back)) < 2 ^ 14
    → let c = checksum (front ++ (0 ∷ 0 ∷ back)) in
      checksum (front ++ (c % 256 ∷ c / 256 ∷ back)) ≡ 0
checksum_verifies front back e bytes short =
    let zeroed = front ++ (0 ∷ 0 ∷ back) in
    let c = checksum zeroed in
    let bound = total-le zeroed bytes in
    let small = fold_carries-lt (total zeroed) in
    let before = checksum-total zeroed (omega (arith, bound, short)) in
    let field = total_field front back c e in
    checksum-total (front ++ (c % 256 ∷ c / 256 ∷ back))
      (omega (arith, bound, short, field, before, small))
    ∙ ap fold_carries (field ∙ ap (λ x. total zeroed + x) before)
    ∙ fold_carries_zero (total zeroed) (omega (arith, bound, short))
