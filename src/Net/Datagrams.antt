-- ===== src/Net/Datagrams.antt =====
-- A datagram of src/udp.rs, from the sender's bytes to the handler's arguments.
use sysrust.Common.{
  ℕ, ◌+◌, ◌-◌, ◌^◌, ◌≡◌, ◌<◌, ◌≤◌, false, Option, some, none, ltb, length, arith, refl, ap, ◌∙◌,
  Option-cases, inl, inr,
}
use sysrust.Net.{Bytes, get16, take, drop, two_bytes, take-length}
use sysrust.Net.Udp.{Udp, handler_of, HandlerCall, rx, datagram}

-- The call that a handler gets.
abbrev pub answered : (src_ip src_port : ℕ) (payload : Bytes) → Option ℕ → Option HandlerCall
answered src_ip src_port payload none = none
answered src_ip src_port payload (some f) =
    some (record { handler = f; src_ip = src_ip; src_port = src_port; payload = payload })

rx_accepts :
    (src_ip : ℕ) (packet : Bytes) (u : Udp)
    → ltb (length packet) 8 ≡ false
    → ltb (get16 packet 4) 8 ≡ false
    → ltb (length packet) (get16 packet 4) ≡ false
    → rx src_ip packet u
      ≡ answered src_ip
          (get16 packet 0)
          (take (get16 packet 4 - 8) (drop 8 packet))
          (handler_of (get16 packet 2) u)
unfolding rx
rx_accepts src_ip packet u long whole fits = elim (Option-cases (handler_of (get16 packet 2) u)) [
  | inl nobody ↦ rw (rx, long, whole, fits, nobody) refl
  | inr (f, found) ↦ rw (rx, long, whole, fits, found) refl
]

-- For ports below 2^16 and at most 1472 bytes, the datagram that udp::send builds makes udp::rx
-- call the handler of the destination port, if there is one, with the sender, the source port and
-- the same bytes.
pub rx-datagram :
    (src_ip src_port dst_port : ℕ) (payload : Bytes) (u : Udp)
    → src_port < 2 ^ 16
    → dst_port < 2 ^ 16
    → length payload ≤ 1472
    → rx src_ip (datagram src_port dst_port payload) u
      ≡ answered src_ip src_port payload (handler_of dst_port u)
rx-datagram src_ip src_port dst_port payload u hs hd short =
    let packet = datagram src_port dst_port payload in
    let total : get16 packet 4 ≡ 8 + length payload = omega arith in
    let from : get16 packet 0 ≡ src_port = two_bytes src_port hs in
    let to : get16 packet 2 ≡ dst_port = two_bytes dst_port hd in
    let body : take (get16 packet 4 - 8) payload ≡ payload =
      ap (λ n. take (n - 8) payload) total
      ∙ ap (λ n. take n payload) (omega arith)
      ∙ take-length payload in
    rx_accepts src_ip packet u (ground arith) (ground (arith, total)) (ground (arith, total))
    ∙ ap
        (λ p. answered src_ip p (take (get16 packet 4 - 8) payload) (handler_of (get16 packet 2) u))
        from
    ∙ ap (λ p. answered src_ip src_port (take (get16 packet 4 - 8) payload) (handler_of p u)) to
    ∙ ap (λ bs. answered src_ip src_port bs (handler_of dst_port u)) body
