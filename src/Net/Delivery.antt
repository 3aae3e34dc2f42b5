-- ===== src/Net/Delivery.antt =====
-- What `send` of src/ipv4.rs puts on the wire, and that `rx` accepts it.
use sysrust.Common.{
  ℕ, ◌+◌, ◌-◌, ◌%◌, ◌^◌, ◌≡◌, ◌<◌, ◌≤◌, ◌⊎◌, List, [], ◌∷◌, ◌++◌, Bool, true, false, ◌&&◌, not,
  some, ◌==◌, ltb, arith, refl, ap, ◌∙◌, inl, inr, length,
}
use sysrust.Net.{
  two_bytes, four_bytes, take-length, Bytes, IsBytes, net_ip_addr, byte_at, get16, get32, take,
  drop, put16,
}
use sysrust.Net.Arp.{arp_table_lookup}
use sysrust.Net.Checksum.{checksum, checksum_verifies}
use sysrust.Net.Ipv4.{dispatch, rx, front_fields, addresses, header, next_hop, Ip, built}

fields-IsBytes :
    (dst_ip protocol length id : ℕ)
    → protocol < 256
    → IsBytes (front_fields length id protocol ++ (0 ∷ 0 ∷ addresses dst_ip))
fields-IsBytes dst_ip protocol length id h = ground arith

header-checksum :
    (dst_ip protocol length id : ℕ)
    → protocol < 256
    → checksum (header dst_ip protocol length id) ≡ 0
unfolding header
header-checksum dst_ip protocol length id h =
    checksum_verifies (front_fields length id protocol) (addresses dst_ip) tt
      (fields-IsBytes dst_ip protocol length id h) (omega arith)

-- A packet with a header of 20 bytes that passes every test.
rx_accepts :
    (packet : Bytes)
    → ltb (length packet) 20 ≡ false
    → byte_at packet 0 ≡ 69
    → ltb (length packet) (get16 packet 2) ≡ false
    → ltb (get16 packet 2) 20 ≡ false
    → checksum (take 20 packet) ≡ 0
    → (not (get32 packet 16 == net_ip_addr) && not (get32 packet 16 == 2 ^ 32 - 1)) ≡ false
    → rx packet
      ≡ dispatch (byte_at packet 9) (get32 packet 12) (take (get16 packet 2 - 20) (drop 20 packet))
unfolding rx
rx_accepts packet long version fits headed summed ours =
    rw (rx, long, version, fits, headed, summed, ours) refl

-- A header that ipv4::send builds for a protocol number below 256 and our own or the broadcast
-- address, followed by a payload of at most 1480 bytes, passes every test of ipv4::rx, checksum
-- included, and the payload reaches the handler of its protocol unchanged, with our address as the
-- sender.
pub rx-header :
    (dst_ip protocol id : ℕ) (payload : Bytes)
    → protocol < 256
    → length payload ≤ 1480
    → (dst_ip ≡ net_ip_addr) ⊎ (dst_ip ≡ 2 ^ 32 - 1)
    → rx (header dst_ip protocol (length payload) id ++ payload)
      ≡ dispatch protocol net_ip_addr payload
unfolding header
rx-header dst_ip protocol id payload small short ours =
    let packet = header dst_ip protocol (length payload) id ++ payload in
    let total : get16 packet 2 ≡ 20 + length payload =
      two_bytes (20 + length payload) (omega arith) in
    let wide : dst_ip < 2 ^ 32 = elim ours [ inl e ↦ omega arith | inr e ↦ omega arith ] in
    let dst : get32 packet 16 ≡ dst_ip = four_bytes dst_ip wide in
    let long : length packet ≡ 20 + length payload = omega arith in
    rx_accepts packet (ground (arith, long)) refl (ground (arith, long, total))
      (ground (arith, total)) (header-checksum dst_ip protocol (length payload) id small)
      (rw dst (elim ours [ inl e ↦ rw e refl | inr e ↦ rw e refl ]))
    ∙ ap (dispatch protocol net_ip_addr) (
        ap (λ n. take (n - 20) payload) total
        ∙ ap (λ n. take n payload) (omega arith)
        ∙ take-length payload)

-- A result 0 is one frame for the next hop after those that `resolve` sent, with what the buffer
-- holds by then, which is the packet if no interrupt used the buffer or the counter; a result -1 is
-- a payload over the limit, with nothing done, or three requests without an answer.
abbrev pub SendOutcome :
    (our_mac : Bytes) (dst_ip protocol : ℕ) (payload : Bytes) (meanwhile : Bytes × ℕ → Bytes × ℕ)
    (s : Ip)
    → Bool × Ip × List Bytes
    → Type 0
SendOutcome our_mac dst_ip protocol payload meanwhile s (true, s', frames) =
    (length payload ≤ 1480)
    × ((mac : Bytes) × (early : List Bytes) × (arp_table_lookup (next_hop dst_ip) s'.arp_table
          ≡ some mac)
        × (frames
            ≡ early
              ++ (mac ++ our_mac ++ put16 0x0800 (take (20 + length payload) s'.pkt_buf)) ∷ []))
    × (meanwhile (built dst_ip protocol payload s) ≡ built dst_ip protocol payload s
        → (s'.id_counter ≡ (s.id_counter + 1) % 2 ^ 16)
          × (take (20 + length payload) s'.pkt_buf
              ≡ header dst_ip protocol (length payload) s.id_counter ++ payload))
SendOutcome our_mac dst_ip protocol payload meanwhile s (false, s', frames) =
    ((1480 < length payload) × (s' ≡ s) × (frames ≡ []))
    ⊎ ((length payload ≤ 1480) × (3 ≤ length frames))
