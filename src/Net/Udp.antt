-- ===== src/Net/Udp.antt =====
-- The port table and the datagrams of src/udp.rs. A handler is named by a number; a call of it is
-- its arguments.
use sysrust.Common.{
  ℕ, ◌+◌, ◌-◌, ◌%◌, ◌^◌, List, [], ◌∷◌, Bool, true, false, ◌&&◌, Option, some, none, ◌==◌, ltb, leb,
  if◌then◌else◌, length, Table, store, find_from,
}
use sysrust.Net.{Bytes, take, drop, put16, get16}
use sysrust.Net.Ipv4
use sysrust.Net.Ipv4.{Ip}

abbrev pub udp_max_binds : ℕ
udp_max_binds = 16

pub record BindEntry : Type 0 where
  pub port : ℕ
  pub handler : Option ℕ

-- BIND_TABLE and BIND_COUNT.
pub record Udp : Type 0 where
  pub bind_table : Table BindEntry
  pub bind_count : ℕ

-- True is the result 1, false is 0.
unfoldable pub bind : (port handler : ℕ) → Udp → Bool × Udp
bind port handler u =
    let entry : BindEntry = record { port = port; handler = some handler } in
    elim (find_from (λ i. (u.bind_table i).port == port) u.bind_count 0) [
      | some i ↦ (
        true,
        record u {
          bind_table = store u.bind_table i (record (u.bind_table i) { handler = some handler });
        },
      )
      | none ↦ if leb udp_max_binds u.bind_count then (false, u) else (
        true,
        record {
          bind_table = store u.bind_table u.bind_count entry;
          bind_count = u.bind_count + 1;
        },
      )
    ]

pub record HandlerCall : Type 0 where
  pub handler : ℕ
  pub src_ip : ℕ
  pub src_port : ℕ
  pub payload : Bytes

-- An entry for the port that has a handler.
abbrev pub serves : (port : ℕ) → BindEntry → Bool
serves port e = (e.port == port) && (elim e.handler [ some h ↦ true | none ↦ false ])

-- The handler that the loop of `rx` calls.
unfoldable pub handler_of : (port : ℕ) → Udp → Option ℕ
handler_of port u = elim (find_from (λ i. serves port (u.bind_table i)) u.bind_count 0) [
  | some i ↦ (u.bind_table i).handler
  | none ↦ none
]

unfoldable pub rx : (src_ip : ℕ) → Bytes → Udp → Option HandlerCall
unfolding handler_of
rx src_ip packet u =
    let udp_len = get16 packet 4 in
    if ltb (length packet) 8
    then none
    else if ltb udp_len 8
    then none
    else if ltb (length packet) udp_len
    then none
    else elim (handler_of (get16 packet 2) u) [
      | none ↦ none
      | some h ↦ some (record {
        handler = h;
        src_ip = src_ip;
        src_port = get16 packet 0;
        payload = take (udp_len - 8) (drop 8 packet);
      })
    ]

-- The header, with no checksum, and the data.
abbrev pub datagram : (src_port dst_port : ℕ) → Bytes → Bytes
datagram src_port dst_port payload =
    put16 src_port (put16 dst_port (put16 ((8 + length payload) % 2 ^ 16) (0 ∷ 0 ∷ payload)))

-- The length is a u16.
unfoldable pub send :
    (our_mac : Bytes) (dst_ip src_port dst_port : ℕ) (payload : Bytes)
    → (rounds : ℕ → List (List Bytes)) → (meanwhile : Bytes × ℕ → Bytes × ℕ) → Ip
    → Bool × Ip × List Bytes
send our_mac dst_ip src_port dst_port payload rounds meanwhile s =
    if ltb 1480 ((8 + length payload) % 2 ^ 16)
    then (false, s, [])
    else Ipv4.send our_mac dst_ip 17 (datagram src_port dst_port payload) rounds meanwhile s
