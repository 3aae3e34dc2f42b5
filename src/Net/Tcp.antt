-- ===== src/Net/Tcp.antt =====
-- The connections of src/tcp.rs: the table, the segments with their checksum, and the circular
-- receive buffer. A segment sent is the pair of the address and the bytes handed to ipv4::send.
pub mod Calls
pub mod Fifo
pub mod Handshake
pub mod Receive
pub mod Segments
pub mod Tests
pub mod Machine
pub mod Transitions
use Prim.Native.Nat.{bit_and}
use sysrust.Common.{
  ℕ, zero, suc, ◌+◌, ◌-◌, ◌*◌, ◌/◌, ◌%◌, ◌^◌, List, [], ◌∷◌, ◌++◌, Bool, true, false, ◌&&◌, not,
  Option, some, none, ◌==◌, ltb, if◌then◌else◌, length, Table, store, find_from,
}
use sysrust.Net.{Bytes, net_ip_addr, put16, put32}
use sysrust.Net.Checksum.{checksum}

abbrev pub tcp_max_conns : ℕ
tcp_max_conns = 4

abbrev pub rx_buf_size : ℕ
rx_buf_size = 4096

pub data TcpState : Type 0 where
  closed : TcpState
  syn_sent : TcpState
  established : TcpState
  fin_wait_1 : TcpState
  fin_wait_2 : TcpState
  time_wait : TcpState

pub record TcpConn : Type 0 where
  pub in_use : Bool
  pub state : TcpState
  pub remote_ip : ℕ
  pub remote_port : ℕ
  pub local_port : ℕ
  pub send_seq : ℕ
  pub send_ack : ℕ
  pub rx_buf : Table ℕ
  pub rx_head : ℕ
  pub rx_tail : ℕ
  pub fin_received : Bool
  pub connected : Bool

-- TcpConn::new().
abbrev pub new : TcpConn
new = record {
  in_use = false;
  state = TcpState.closed;
  remote_ip = 0;
  remote_port = 0;
  local_port = 0;
  send_seq = 0;
  send_ack = 0;
  rx_buf = λ i. 0;
  rx_head = 0;
  rx_tail = 0;
  fin_received = false;
  connected = false;
}

-- CONNS and NEXT_LOCAL_PORT.
pub record Tcp : Type 0 where
  pub conns : Table TcpConn
  pub next_local_port : ℕ

abbrev pub set_conn : ℕ → TcpConn → Tcp → Tcp
set_conn i c s = record s { conns = store s.conns i c }

-- Every slot as new; the port counter stays.
abbrev pub init : Tcp → Tcp
init s = record s { conns = λ i. new }

abbrev pub Sent : Type 0
Sent = List (ℕ × Bytes)

abbrev pub fin : ℕ
fin = 0x01

abbrev pub syn : ℕ
syn = 0x02

abbrev pub rst : ℕ
rst = 0x04

abbrev pub psh : ℕ
psh = 0x08

abbrev pub ack : ℕ
ack = 0x10

-- (flags & mask) != 0
abbrev pub has_flag : (flags mask : ℕ) → Bool
has_flag flags mask = not (bit_and flags mask == 0)

abbrev pub pseudo_header : (src_ip dst_ip tcp_len : ℕ) → Bytes
pseudo_header src_ip dst_ip tcp_len = put32 src_ip (put32 dst_ip (0 ∷ 6 ∷ put16 tcp_len []))

unfoldable pub tcp_checksum : (src_ip dst_ip : ℕ) (segment : Bytes) → ℕ
unfolding checksum
tcp_checksum src_ip dst_ip segment =
    if ltb 1480 (length segment)
    then 0
    else checksum (pseudo_header src_ip dst_ip (length segment) ++ segment)

-- The fields before the checksum, 16 bytes.
abbrev pub segment_front : (c : TcpConn) (flags : ℕ) → Bytes
segment_front c flags =
    put16 c.local_port
      (put16 c.remote_port (put32 c.send_seq (put32 c.send_ack (0x50 ∷ flags ∷ put16 4096 []))))

-- The segment with its checksum, stored low byte first, and no urgent pointer.
unfoldable pub segment : (c : TcpConn) (flags : ℕ) (payload : Bytes) → Bytes
unfolding tcp_checksum
segment c flags payload =
    let sum =
      tcp_checksum net_ip_addr c.remote_ip (segment_front c flags ++ (0 ∷ 0 ∷ 0 ∷ 0 ∷ payload)) in
    segment_front c flags ++ (sum % 256 ∷ sum / 256 ∷ 0 ∷ 0 ∷ payload)

-- The length is a u16; a segment over the limit is dropped in silence.
unfoldable pub tcp_send_segment : (c : TcpConn) (flags : ℕ) (payload : Bytes) → Sent
unfolding segment
tcp_send_segment c flags payload =
    if ltb 1480 ((20 + length payload) % 2 ^ 16)
    then []
    else (c.remote_ip, segment c flags payload) ∷ []

unfoldable pub tcp_alloc_conn : Tcp → Option ℕ
tcp_alloc_conn s = find_from (λ i. not (s.conns i).in_use) tcp_max_conns 0

abbrev pub matches : (remote_ip remote_port local_port : ℕ) → TcpConn → Bool
matches remote_ip remote_port local_port c =
    c.in_use
    && ((c.remote_ip == remote_ip)
        && ((c.remote_port == remote_port) && (c.local_port == local_port)))

unfoldable pub tcp_find_conn : (remote_ip remote_port local_port : ℕ) → Tcp → Option ℕ
tcp_find_conn remote_ip remote_port local_port s =
    find_from (λ i. matches remote_ip remote_port local_port (s.conns i)) tcp_max_conns 0

-- The copy into the circular buffer; it stops when the buffer is full.
unfoldable pub push_all : Bytes → TcpConn → TcpConn
push_all [] c = c
push_all (b ∷ bs) c =
    let next = (c.rx_head + 1) % rx_buf_size in
    let rest = push_all bs (record c { rx_buf = store c.rx_buf c.rx_head b; rx_head = next }) in
    if next == c.rx_tail then c else rest

-- The bytes between the two indices.
abbrev pub available : TcpConn → ℕ
available c =
    if c.rx_head == c.rx_tail
    then 0
    else if ltb c.rx_tail c.rx_head
    then c.rx_head - c.rx_tail
    else rx_buf_size - c.rx_tail + c.rx_head

-- The copy out of the buffer: `n` bytes left, from index `j` after the tail.
unfoldable pub copy_out : (n j : ℕ) (tail : ℕ) → Table ℕ → Bytes
copy_out zero j tail buf = []
copy_out (suc n) j tail buf = buf ((tail + j) % rx_buf_size) ∷ copy_out n (j + 1) tail buf

-- The end of `recv`, after its wait.
unfoldable pub take_out : (max_len : ℕ) → TcpConn → Bytes × TcpConn
unfolding copy_out
take_out max_len c =
    let count = if ltb max_len (available c) then max_len else available c in
    if c.rx_head == c.rx_tail then ([], c) else (
      copy_out count 0 c.rx_tail c.rx_buf,
      record c { rx_tail = (c.rx_tail + count) % rx_buf_size },
    )
