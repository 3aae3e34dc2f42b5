-- ===== src/Net/Ethernet.antt =====
-- The receiver of src/net.rs: which protocol gets the payload of a frame.
use sysrust.Common.{
  ℕ, ◌+◌, ◌^◌, ◌≡◌, ◌<◌, ◌≤◌, [], ◌∷◌, ◌++◌, false, Option, some, none, ◌==◌, ltb, if◌then◌else◌,
  length, arith, refl, ap, ◌∙◌,
}
use sysrust.Net.{Bytes, drop, get16, put16, send_ethernet, two_bytes}
use sysrust.Net.Resolution.{Mac, bytes_of}

-- The payload handed to arp::rx or ipv4::rx.
pub data FramePayload : Type 0 where
  arp_rx : Bytes → FramePayload
  ipv4_rx : Bytes → FramePayload

abbrev pub by_ethertype : (ethertype : ℕ) → Bytes → Option FramePayload
by_ethertype ethertype payload =
    if ethertype == 0x0806
    then some (arp_rx payload)
    else if ethertype == 0x0800
    then some (ipv4_rx payload)
    else none

unfoldable pub rx : Bytes → Option FramePayload
rx frame = if ltb (length frame) 14 then none else by_ethertype (get16 frame 12) (drop 14 frame)

rx_accepts :
    (frame : Bytes)
    → ltb (length frame) 14 ≡ false
    → rx frame ≡ by_ethertype (get16 frame 12) (drop 14 frame)
unfolding rx
rx_accepts frame long = rw (rx, long) refl

-- For an EtherType below 2^16 and at most 1504 bytes of payload, send_ethernet hands one frame to
-- the card, and net::rx gives the payload of that frame, unchanged, to the protocol of the
-- EtherType.
pub rx-send_ethernet :
    (our_mac dst_mac : Mac) (ethertype : ℕ) (payload : Bytes)
    → ethertype < 2 ^ 16
    → length payload ≤ 1504
    → (frame : Bytes) × (send_ethernet (bytes_of our_mac) (bytes_of dst_mac) ethertype payload
        ≡ frame ∷ [])
      × (rx frame ≡ by_ethertype ethertype payload)
rx-send_ethernet our_mac dst_mac ethertype payload small short =
    let frame = bytes_of dst_mac ++ bytes_of our_mac ++ put16 ethertype payload in
    let fits : ltb 1518 (length payload + 14) ≡ false = ground arith in
    (
      frame,
      rw fits refl,
      rx_accepts frame (ground arith)
          ∙ ap (λ t. by_ethertype t payload) (two_bytes ethertype small),
    )
