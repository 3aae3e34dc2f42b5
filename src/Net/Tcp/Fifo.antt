-- ===== src/Net/Tcp/Fifo.antt =====
-- The circular receive buffer of src/tcp.rs as a queue of bytes.
use sysrust.Common.{
  ℕ, zero, suc, ◌+◌, ◌-◌, ◌%◌, ◌≡◌, ◌≢◌, ◌<◌, ◌≤◌, [], ◌∷◌, ◌++◌, true, false, ◌==◌, ltb,
  if◌then◌else◌, arith, refl, ap, ◌∙◌, sym, length, Table, store, Bool-cases, inl, inr, ==→eq, min,
}
use sysrust.Net.{Bytes, take, take-nil}
use sysrust.Net.Tcp.{TcpConn, push_all, available, copy_out, take_out, rx_buf_size}

-- The queue that the two indices and the array stand for.
abbrev pub contents : TcpConn → Bytes
contents c = copy_out (available c) 0 c.rx_tail c.rx_buf

-- Both indices are in range.
abbrev pub IsRing : TcpConn → Type 0
IsRing c = (c.rx_head < rx_buf_size) × (c.rx_tail < rx_buf_size)

copy_out-suc :
    (n j tail : ℕ) (buf : Table ℕ)
    → copy_out (suc n) j tail buf
      ≡ copy_out n j tail buf ++ (buf ((tail + (j + n)) % rx_buf_size) ∷ [])
unfolding copy_out
copy_out-suc zero j tail buf = ap (λ k. buf ((tail + k) % rx_buf_size) ∷ []) (omega arith)
copy_out-suc (suc n) j tail buf =
    ap (λ bs. buf ((tail + j) % rx_buf_size) ∷ bs)
      (copy_out-suc n (j + 1) tail buf
        ∙ ap (λ k. copy_out n (j + 1) tail buf ++ (buf ((tail + k) % rx_buf_size) ∷ []))
            (omega arith))

copy_out_ext :
    (n j tail : ℕ) (a b : Table ℕ)
    → ((k : ℕ) → k < j + n → a ((tail + k) % rx_buf_size) ≡ b ((tail + k) % rx_buf_size))
    → copy_out n j tail a ≡ copy_out n j tail b
unfolding copy_out
copy_out_ext zero j tail a b same = refl
copy_out_ext (suc n) j tail a b same =
    rw (same j (omega arith), copy_out_ext n (j + 1) tail a b (λ k h. same k (omega (arith, h))))
      refl

available_mod : (c : TcpConn) → IsRing c → available c ≡ (c.rx_head + 4096 - c.rx_tail) % 4096
available_mod c ring = ground (arith, ring.0, ring.1)

module _ (t : Table ℕ) (i v : ℕ) where
  store_same : store t i v i ≡ v
  store_same = ground arith

  store_other : (j : ℕ) → j ≢ i → store t i v j ≡ t j
  store_other j apart = ground (arith, apart)

abbrev pushed : ℕ → TcpConn → TcpConn
pushed b c = record c {
  rx_buf = store c.rx_buf c.rx_head b;
  rx_head = (c.rx_head + 1) % rx_buf_size;
}

module _ (b : ℕ) (c : TcpConn) (ring : IsRing c) where
  available-pushed :
      (c.rx_head + 1) % rx_buf_size ≢ c.rx_tail → available (pushed b c) ≡ suc (available c)
  available-pushed room =
      let before = available_mod c ring in
      let after = available_mod (pushed b c) (omega arith, ring.1) in
      omega (arith, before, after, room, ring.0, ring.1)

  contents-pushed :
      (c.rx_head + 1) % rx_buf_size ≢ c.rx_tail → contents (pushed b c) ≡ contents c ++ (b ∷ [])
  contents-pushed room =
      let before = available_mod c ring in
      let end : (c.rx_tail + (0 + available c)) % rx_buf_size ≡ c.rx_head =
        omega (arith, before, ring.0, ring.1) in
      rw
        (
          available-pushed room,
          copy_out-suc (available c) 0 c.rx_tail (store c.rx_buf c.rx_head b),
          end,
        )
        (ap (λ bs. bs ++ (store c.rx_buf c.rx_head b c.rx_head ∷ []))
            (copy_out_ext (available c) 0 c.rx_tail (store c.rx_buf c.rx_head b) c.rx_buf (λ k h.
              store_other c.rx_buf c.rx_head b ((c.rx_tail + k) % rx_buf_size)
                (omega (arith, before, h, ring.0, ring.1))))
          ∙ ap (λ x. contents c ++ (x ∷ [])) (store_same c.rx_buf c.rx_head b))

append_assoc : (xs ys zs : Bytes) → (xs ++ ys) ++ zs ≡ xs ++ (ys ++ zs)
append_assoc [] ys zs = refl
append_assoc (x ∷ xs) ys zs = ap (λ l. x ∷ l) (append_assoc xs ys zs)

append_nil : (xs : Bytes) → xs ++ [] ≡ xs
append_nil [] = refl
append_nil (x ∷ xs) = ap (λ l. x ∷ l) (append_nil xs)

-- When both indices of the receive buffer are in range, the copy of a payload into it keeps them
-- in range and appends to the queue that the buffer stands for as many bytes from the front of the
-- payload as 4095 less the bytes already there allow.
pub push_all-contents :
    (bs : Bytes) (c : TcpConn)
    → IsRing c
    → IsRing (push_all bs c)
      × (contents (push_all bs c) ≡ contents c ++ take (4095 - available c) bs)
unfolding push_all
push_all-contents [] c ring = (
  ring,
  sym (ap (λ l. contents c ++ l) (take-nil (4095 - available c)) ∙ append_nil (contents c)),
)
push_all-contents (b ∷ bs) c ring =
    let before = available_mod c ring in
    elim (Bool-cases ((c.rx_head + 1) % rx_buf_size == c.rx_tail)) [
      | inl full ↦
          let none_left : 4095 - available c ≡ 0 =
            omega (
              arith,
              before,
              ==→eq ((c.rx_head + 1) % rx_buf_size) c.rx_tail full,
              ring.0,
              ring.1,
            ) in
          rw (full, none_left) (ring, sym (append_nil (contents c)))
      | inr space ↦
          let room : (c.rx_head + 1) % rx_buf_size ≢ c.rx_tail = λ e. ground (arith, e, space) in
          let rest = push_all-contents bs (pushed b c) (omega arith, ring.1) in
          let left : 4095 - available c ≡ suc (4095 - available (pushed b c)) =
            omega (arith, before, available-pushed b c ring room, room, ring.0, ring.1) in
          rw space (
            rest.0,
            rest.1
                ∙ ap (λ l. l ++ take (4095 - available (pushed b c)) bs)
                    (contents-pushed b c ring room)
                ∙ append_assoc (contents c) (b ∷ []) (take (4095 - available (pushed b c)) bs)
                ∙ ap (λ n. contents c ++ take n (b ∷ bs)) (sym left),
          )
    ]

copy_out_split :
    (n m j tail : ℕ) (buf : Table ℕ)
    → copy_out (n + m) j tail buf ≡ copy_out n j tail buf ++ copy_out m (j + n) tail buf
unfolding copy_out
copy_out_split zero m j tail buf =
    ap (λ k. copy_out k j tail buf) (omega arith) ∙ ap (λ k. copy_out m k tail buf) (omega arith)
copy_out_split (suc n) m j tail buf =
    let one_more : suc n + m ≡ suc (n + m) = omega arith in
    ap (λ k. copy_out k j tail buf) one_more
    ∙ ap (λ bs. buf ((tail + j) % rx_buf_size) ∷ bs)
        (copy_out_split n m (j + 1) tail buf
          ∙ ap (λ k. copy_out n (j + 1) tail buf ++ copy_out m k tail buf) (omega arith))

-- A tail moved on is an index moved on.
copy_out_moved :
    (n j i tail : ℕ) (buf : Table ℕ)
    → copy_out n j ((tail + i) % rx_buf_size) buf ≡ copy_out n (j + i) tail buf
unfolding copy_out
copy_out_moved zero j i tail buf = refl
copy_out_moved (suc n) j i tail buf =
    ap (λ k. buf k ∷ copy_out n (j + 1) ((tail + i) % rx_buf_size) buf) (omega arith)
    ∙ ap (λ bs. buf ((tail + (j + i)) % rx_buf_size) ∷ bs)
        (copy_out_moved n (j + 1) i tail buf ∙ ap (λ k. copy_out n k tail buf) (omega arith))

length-copy_out : (n j tail : ℕ) (buf : Table ℕ) → length (copy_out n j tail buf) ≡ n
unfolding copy_out
length-copy_out zero j tail buf = omega arith
length-copy_out (suc n) j tail buf = omega (arith, length-copy_out n (j + 1) tail buf)

-- What a read gives: the front of the queue.
abbrev pub Taken : (max_len : ℕ) (c : TcpConn) → Bytes × TcpConn → Type 0
Taken max_len c (out, c') =
    IsRing c' × (contents c ≡ out ++ contents c') × (length out ≡ min max_len (length (contents c)))

module _ (max_len : ℕ) (c : TcpConn) (ring : IsRing c) where
  abbrev count : ℕ
  count = if ltb max_len (available c) then max_len else available c

  abbrev moved : TcpConn
  moved = record c { rx_tail = (c.rx_tail + count) % rx_buf_size }

  take_out_empty : (c.rx_head == c.rx_tail) ≡ true → take_out max_len c ≡ ([], c)
  unfolding take_out
  take_out_empty empty = rw (take_out, empty) refl

  take_out_some :
      (c.rx_head == c.rx_tail) ≡ false
      → take_out max_len c ≡ (copy_out count 0 c.rx_tail c.rx_buf, moved)
  unfolding take_out
  take_out_some left = rw (take_out, left) refl

  available-moved : available c ≡ count + available moved
  available-moved =
      let before = available_mod c ring in
      let after = available_mod moved (ring.0, omega arith) in
      let bound : count ≤ available c = ground arith in
      omega (arith, before, after, bound, ring.0, ring.1)

  contents-moved : contents c ≡ copy_out count 0 c.rx_tail c.rx_buf ++ contents moved
  contents-moved =
      ap (λ n. copy_out n 0 c.rx_tail c.rx_buf) available-moved
      ∙ copy_out_split count (available moved) 0 c.rx_tail c.rx_buf
      ∙ ap (λ bs. copy_out count 0 c.rx_tail c.rx_buf ++ bs)
          (sym (copy_out_moved (available moved) 0 count c.rx_tail c.rx_buf))

  -- When both indices of the receive buffer are in range, a read of at most n bytes keeps them in
  -- range and takes from the front of the queue that the buffer stands for the smaller of n and
  -- its length, and leaves the rest.
  pub take_out-Taken : Taken max_len c (take_out max_len c)
  take_out-Taken = elim (Bool-cases (c.rx_head == c.rx_tail)) [
    | inl empty ↦
        let none_left : available c ≡ 0 = rw empty refl in
        rw (take_out_empty empty)
          (ring, refl, omega (arith, none_left, length-copy_out (available c) 0 c.rx_tail c.rx_buf))
    | inr left ↦ rw (take_out_some left) (
      (ring.0, omega arith),
      contents-moved,
      ground (
        arith,
        length-copy_out count 0 c.rx_tail c.rx_buf,
        length-copy_out (available c) 0 c.rx_tail c.rx_buf,
      ),
    )
  ]
