-- ===== src/Net/Ipv4.antt =====
-- The packets of src/ipv4.rs: the header that `send` builds, the choice of the next hop, and the
-- tests that `rx` makes before it hands a payload on.
use sysrust.Common.{
  ℕ, ◌+◌, ◌-◌, ◌*◌, ◌/◌, ◌%◌, ◌^◌, List, [], ◌∷◌, ◌++◌, Bool, true, false, ◌&&◌, not, Option, some,
  none, ◌==◌, ltb, if◌then◌else◌, length, Table,
}
use sysrust.Net.{
  Bytes, net_ip_addr, net_gateway, subnet_of, byte_at, drop, take, put16, put32, get16, get32,
  send_ethernet,
}
use sysrust.Net.Arp.{ArpEntry, resolve}
use sysrust.Net.Checksum.{checksum}

-- The payload handed to icmp::rx, tcp::rx or udp::rx, with the sender's address.
pub data Delivery : Type 0 where
  icmp_rx : (src_ip : ℕ) (payload : Bytes) → Delivery
  tcp_rx : (src_ip : ℕ) (payload : Bytes) → Delivery
  udp_rx : (src_ip : ℕ) (payload : Bytes) → Delivery

-- The match on the protocol number; others are dropped.
abbrev pub dispatch : (protocol src_ip : ℕ) (payload : Bytes) → Option Delivery
dispatch protocol src_ip payload =
    if protocol == 1
    then some (icmp_rx src_ip payload)
    else if protocol == 6
    then some (tcp_rx src_ip payload)
    else if protocol == 17
    then some (udp_rx src_ip payload)
    else none

unfoldable pub rx : Bytes → Option Delivery
unfolding checksum
rx packet =
    let hdr_len = byte_at packet 0 % 16 * 4 in
    let total_len = get16 packet 2 in
    let dst_ip = get32 packet 16 in
    if ltb (length packet) 20
    then none
    else if not (byte_at packet 0 / 16 == 4)
    then none
    else if ltb (length packet) total_len
    then none
    else if ltb total_len hdr_len
    then none
    else if not (checksum (take hdr_len packet) == 0)
    then none
    else if not (dst_ip == net_ip_addr) && not (dst_ip == 2 ^ 32 - 1)
    then none
    else dispatch (byte_at packet 9) (get32 packet 12)
        (take (total_len - hdr_len) (drop hdr_len packet))

-- The fields before the checksum, which are the first ten bytes.
abbrev pub front_fields : (length id protocol : ℕ) → Bytes
front_fields length id protocol =
    0x45 ∷ 0 ∷ put16 (20 + length) (put16 id (put16 0x4000 (64 ∷ protocol ∷ [])))

abbrev pub addresses : (dst_ip : ℕ) → Bytes
addresses dst_ip = put32 net_ip_addr (put32 dst_ip [])

-- The header with its checksum, which is stored as it is computed, low byte first.
unfoldable pub header : (dst_ip protocol length id : ℕ) → Bytes
unfolding checksum
header dst_ip protocol length id =
    let front = front_fields length id protocol in
    let sum = checksum (front ++ (0 ∷ 0 ∷ addresses dst_ip)) in
    front ++ (sum % 256 ∷ sum / 256 ∷ addresses dst_ip)

abbrev pub next_hop : (dst_ip : ℕ) → ℕ
next_hop dst_ip = if subnet_of dst_ip == subnet_of net_ip_addr then dst_ip else net_gateway

-- The packet buffer and the counter of packets, which are statics, and the ARP table.
pub record Ip : Type 0 where
  pub pkt_buf : Bytes
  pub id_counter : ℕ
  pub arp_table : Table ArpEntry

-- The packet over the front of the buffer, and the counter after it.
abbrev pub built : (dst_ip protocol : ℕ) (payload : Bytes) → Ip → Bytes × ℕ
built dst_ip protocol payload s =
    let packet = header dst_ip protocol (length payload) s.id_counter ++ payload in
    (packet ++ drop (length packet) s.pkt_buf, (s.id_counter + 1) % 2 ^ 16)

-- True is the result 0, false is -1. The ARP packets that arrive while `resolve` waits are `rounds`.
-- `meanwhile` is what the calls of `send` from icmp::rx and tcp::rx, in interrupts before the frame
-- goes out, do to the buffer and the counter; the frames that those calls send are not listed.
unfoldable pub send :
    (our_mac : Bytes) (dst_ip protocol : ℕ) (payload : Bytes)
    → (rounds : ℕ → List (List Bytes)) → (meanwhile : Bytes × ℕ → Bytes × ℕ) → Ip
    → Bool × Ip × List Bytes
unfolding resolve
send our_mac dst_ip protocol payload rounds meanwhile s =
    let (pkt_buf, id_counter) = meanwhile (built dst_ip protocol payload s) in
    let (found, table, frames) = resolve our_mac (next_hop dst_ip) rounds s.arp_table in
    let after : Ip = record { pkt_buf = pkt_buf; id_counter = id_counter; arp_table = table } in
    if ltb 1500 (length payload + 20) then (false, s, []) else elim found [
      | none ↦ (false, after, frames)
      | some dst_mac ↦ (
        true,
        after,
        frames ++ send_ethernet our_mac dst_mac 0x0800 (take (20 + length payload) pkt_buf),
      )
    ]
