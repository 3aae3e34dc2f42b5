-- ===== src/Net/Arp.antt =====
-- The address resolution of src/arp.rs: the table of 16 entries, the two packets, the receiver and
-- the blocking `resolve`.
use sysrust.Common.{
  ℕ, zero, suc, ◌+◌, List, [], ◌∷◌, ◌++◌, Bool, true, false, ◌&&◌, not, Option, some, none, ◌==◌,
  ltb, if◌then◌else◌, length, Table, store, find_from,
}
use sysrust.Net.{Bytes, net_ip_addr, put16, put32, get16, get32, mac_at, send_ethernet}

abbrev pub arp_table_size : ℕ
arp_table_size = 16

pub record ArpEntry : Type 0 where
  pub ip : ℕ
  pub mac : Bytes
  pub valid : Bool

abbrev pub empty : ArpEntry
empty = record { ip = 0; mac = 0 ∷ 0 ∷ 0 ∷ 0 ∷ 0 ∷ 0 ∷ []; valid = false }

-- The static table, and the one that `init` leaves.
abbrev pub init : Table ArpEntry
init i = empty

-- The test of both searches.
abbrev pub holds : ℕ → ArpEntry → Bool
holds ip e = e.valid && (e.ip == ip)

-- The loop of `arp_table_update`: `n` slots left, the first free slot met so far.
unfoldable pub update_loop :
    (n i : ℕ) (free_slot : Option ℕ) (ip : ℕ) (mac : Bytes) → Table ArpEntry → Table ArpEntry
update_loop zero i none ip mac t = t
update_loop zero i (some slot) ip mac t = store t slot (record { ip = ip; mac = mac; valid = true })
update_loop (suc n) i free_slot ip mac t =
    let free : Option ℕ = elim free_slot [
      | some slot ↦ some slot
      | none ↦ if (t i).valid then none else some i
    ] in
    let rest = update_loop n (i + 1) free ip mac t in
    if holds ip (t i) then store t i (record (t i) { mac = mac }) else rest

unfoldable pub arp_table_update : (ip : ℕ) (mac : Bytes) → Table ArpEntry → Table ArpEntry
unfolding update_loop
arp_table_update ip mac t = update_loop arp_table_size 0 none ip mac t

unfoldable pub arp_table_lookup : (ip : ℕ) → Table ArpEntry → Option Bytes
arp_table_lookup ip t = elim (find_from (λ i. holds ip (t i)) arp_table_size 0) [
  | some i ↦ some (t i).mac
  | none ↦ none
]

-- The 28 bytes of an ArpPacket.
unfoldable pub arp_packet :
    (opcode : ℕ) (sender_mac : Bytes) (sender_ip : ℕ) (target_mac : Bytes) (target_ip : ℕ) → Bytes
arp_packet opcode sender_mac sender_ip target_mac target_ip = put16 1 (
    put16 0x0800
      (6 ∷ 4 ∷ put16 opcode (sender_mac ++ put32 sender_ip (target_mac ++ put32 target_ip []))))

abbrev pub eth_broadcast : Bytes
eth_broadcast = 255 ∷ 255 ∷ 255 ∷ 255 ∷ 255 ∷ 255 ∷ []

abbrev pub eth_type_arp : ℕ
eth_type_arp = 0x0806

-- `our_mac` is the address that the card reports.
module _ (our_mac : Bytes) where
  unfoldable pub arp_send_request : (target_ip : ℕ) → List Bytes
  unfolding arp_packet
  arp_send_request target_ip =
      send_ethernet our_mac eth_broadcast eth_type_arp
        (arp_packet 1 our_mac net_ip_addr (0 ∷ 0 ∷ 0 ∷ 0 ∷ 0 ∷ 0 ∷ []) target_ip)

  unfoldable pub arp_send_reply : (dst_mac : Bytes) (dst_ip : ℕ) → List Bytes
  unfolding arp_packet
  arp_send_reply dst_mac dst_ip =
      send_ethernet our_mac dst_mac eth_type_arp (arp_packet 2 our_mac net_ip_addr dst_mac dst_ip)

  -- The table and the frames sent.
  unfoldable pub rx : Bytes → Table ArpEntry → Table ArpEntry × List Bytes
  unfolding arp_table_update arp_send_reply
  rx packet t =
      let sender_ip = get32 packet 14 in
      let sender_mac = mac_at packet 8 in
      let learnt = arp_table_update sender_ip sender_mac t in
      if ltb (length packet) 28
      then (t, [])
      else if not (get16 packet 0 == 1)
      then (t, [])
      else if not (get16 packet 2 == 0x0800)
      then (t, [])
      else (
        learnt,
        (if (get16 packet 6 == 1) && (get32 packet 24 == net_ip_addr)
            then arp_send_reply sender_mac sender_ip
            else []),
      )

  -- The packets that interrupts hand to `rx` during one `hlt`.
  unfoldable pub rx_all : List Bytes → Table ArpEntry → Table ArpEntry × List Bytes
  unfolding rx
  rx_all [] t = (t, [])
  rx_all (packet ∷ more) t =
      let (t1, sent) = rx packet t in let (t2, later) = rx_all more t1 in (t2, sent ++ later)

  -- The waiting loop, one list of packets for each round until 20 ticks are over.
  unfoldable pub poll :
      (ip : ℕ) → List (List Bytes) → Table ArpEntry → Option Bytes × Table ArpEntry × List Bytes
  unfolding rx_all arp_table_lookup
  poll ip [] t = (none, t, [])
  poll ip (arrived ∷ more) t =
      let (t1, sent) = rx_all arrived t in
      let (r, t2, later) = poll ip more t1 in
      elim (arp_table_lookup ip t) [ some mac ↦ (some mac, t, []) | none ↦ (r, t2, sent ++ later) ]

  -- The attempts from number `i` on, `n` of them left.
  unfoldable pub attempts :
      (ip : ℕ) (n i : ℕ)
      → (ℕ → List (List Bytes))
      → Table ArpEntry
      → Option Bytes × Table ArpEntry × List Bytes
  unfolding arp_send_request poll
  attempts ip zero i rounds t = (none, t, [])
  attempts ip (suc n) i rounds t =
      let (r, t1, sent) = poll ip (rounds i) t in
      let (r2, t2, later) = attempts ip n (i + 1) rounds t1 in
      elim r [
        | some mac ↦ (some mac, t1, arp_send_request ip ++ sent)
        | none ↦ (r2, t2, arp_send_request ip ++ sent ++ later)
      ]

  -- The MAC address or a time-out, the table, and the frames sent.
  unfoldable pub resolve :
      (ip : ℕ)
      → (ℕ → List (List Bytes))
      → Table ArpEntry
      → Option Bytes × Table ArpEntry × List Bytes
  unfolding attempts arp_table_lookup
  resolve ip rounds t =
      let tried = attempts ip 3 0 rounds t in
      elim (arp_table_lookup ip t) [ some mac ↦ (some mac, t, []) | none ↦ tried ]
