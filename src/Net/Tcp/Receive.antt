-- ===== src/Net/Tcp/Receive.antt =====
-- The receiver of src/tcp.rs: the reply to a segment without a connection, and the state machine.
use Prim.Native.Nat.{bit_and}
use sysrust.Common.{
  ℕ, ◌+◌, ◌*◌, ◌/◌, ◌%◌, ◌^◌, [], ◌++◌, true, false, not, Option, some, none, ◌==◌, ltb,
  if◌then◌else◌, length,
}
use sysrust.Net.{Bytes, net_ip_addr, byte_at, drop, get16, get32}
use sysrust.Net.Tcp.{
  TcpState, TcpConn, new, Tcp, set_conn, Sent, fin, syn, rst, ack, has_flag, tcp_checksum,
  tcp_send_segment, tcp_find_conn, push_all,
}

-- The fields of the header that `rx` reads, and the payload.
pub record Segment : Type 0 where
  pub src_port : ℕ
  pub dst_port : ℕ
  pub seq : ℕ
  pub ack_num : ℕ
  pub flags : ℕ
  pub payload : Bytes

-- The length and checksum tests, and the header.
unfoldable pub parse : (src_ip : ℕ) → Bytes → Option Segment
unfolding tcp_checksum
parse src_ip packet =
    let hdr_len = byte_at packet 12 / 16 * 4 in
    if ltb (length packet) 20
    then none
    else if not (tcp_checksum src_ip net_ip_addr packet == 0)
    then none
    else if ltb hdr_len 20
    then none
    else if ltb (length packet) hdr_len
    then none
    else some (record {
      src_port = get16 packet 0;
      dst_port = get16 packet 2;
      seq = get32 packet 4;
      ack_num = get32 packet 8;
      flags = byte_at packet 13;
      payload = drop hdr_len packet;
    })

-- The temporary connection that answers where there is none.
abbrev pub reply_conn : (src_ip : ℕ) → Segment → TcpConn
reply_conn src_ip g = record new {
  remote_ip = src_ip;
  remote_port = g.src_port;
  local_port = g.dst_port;
}

-- The number that the reply to a segment without ACK acknowledges.
abbrev pub past_segment : Segment → ℕ
past_segment g =
    (g.seq
      + length g.payload
      + (if has_flag g.flags syn then 1 else 0)
      + (if has_flag g.flags fin then 1 else 0))
    % 2 ^ 32

unfoldable pub reset_reply : (src_ip : ℕ) → Segment → Sent
unfolding tcp_send_segment
reset_reply src_ip g =
    if has_flag g.flags rst
    then []
    else if has_flag g.flags ack
    then tcp_send_segment (record (reply_conn src_ip g) { send_seq = g.ack_num; send_ack = 0 }) rst
        []
    else tcp_send_segment (record (reply_conn src_ip g) { send_seq = 0; send_ack = past_segment g })
        (rst + ack) []

-- An acknowledgement of `n`, and the connection that remembers it.
abbrev pub acknowledge : (n : ℕ) → TcpConn → TcpConn × Sent
acknowledge n c = (
  record c { send_ack = n % 2 ^ 32 },
  tcp_send_segment (record c { send_ack = n % 2 ^ 32 }) ack [],
)

unfoldable pub on_syn_sent : Segment → TcpConn → TcpConn × Sent
unfolding tcp_send_segment
on_syn_sent g c =
    let c' : TcpConn = record c { send_seq = g.ack_num; send_ack = (g.seq + 1) % 2 ^ 32 } in
    if bit_and g.flags (syn + ack) == syn + ack
    then (if g.ack_num == (c.send_seq + 1) % 2 ^ 32
        then (
          record c' { state = TcpState.established; connected = true },
          tcp_send_segment c' ack [],
        )
        else (c, []))
    else (c, [])

-- The data, and then a FIN.
unfoldable pub take_data : Segment → TcpConn → TcpConn × Sent
unfolding push_all
take_data g c =
    if length g.payload == 0
    then (c, [])
    else acknowledge (g.seq + length g.payload) (push_all g.payload c)

unfoldable pub on_established : Segment → TcpConn → TcpConn × Sent
unfolding take_data
on_established g c =
    let (c1, sent) = take_data g c in
    let (c2, more) = acknowledge (g.seq + length g.payload + 1) c1 in
    if has_flag g.flags fin
    then (record c2 { state = TcpState.time_wait; fin_received = true }, sent ++ more)
    else (c1, sent)

unfoldable pub on_fin_wait_1 : Segment → TcpConn → TcpConn × Sent
on_fin_wait_1 g c =
    let (c', sent) = acknowledge (g.seq + 1) c in
    if has_flag g.flags ack
    then (if has_flag g.flags fin
        then (record c' { state = TcpState.time_wait }, sent)
        else (record c { state = TcpState.fin_wait_2 }, []))
    else (c, [])

unfoldable pub on_fin_wait_2 : Segment → TcpConn → TcpConn × Sent
on_fin_wait_2 g c =
    let (c', sent) = acknowledge (g.seq + 1) c in
    if has_flag g.flags fin
    then (record c' { state = TcpState.time_wait; fin_received = true }, sent)
    else (c, [])

-- The match on the state.
unfoldable pub on_state : TcpState → Segment → TcpConn → TcpConn × Sent
unfolding on_syn_sent on_established on_fin_wait_1 on_fin_wait_2
on_state TcpState.syn_sent g c = on_syn_sent g c
on_state TcpState.established g c = on_established g c
on_state TcpState.fin_wait_1 g c = on_fin_wait_1 g c
on_state TcpState.fin_wait_2 g c = on_fin_wait_2 g c
on_state TcpState.time_wait g c = (c, [])
on_state TcpState.closed g c = (c, [])

-- RST in any state ends the connection.
unfoldable pub on_segment : Segment → TcpConn → TcpConn × Sent
unfolding on_state
on_segment g c =
    if has_flag g.flags rst
    then (
      record c { state = TcpState.closed; in_use = false; connected = false; fin_received = true },
      [],
    )
    else on_state c.state g c

unfoldable pub rx : (src_ip : ℕ) → Bytes → Tcp → Tcp × Sent
unfolding parse reset_reply on_segment tcp_find_conn
rx src_ip packet s = elim (parse src_ip packet) [
  | none ↦ (s, [])
  | some g ↦ elim (tcp_find_conn src_ip g.src_port g.dst_port s) [
    | none ↦ (s, reset_reply src_ip g)
    | some i ↦ let (c, sent) = on_segment g (s.conns i) in (set_conn i c s, sent)
  ]
]
