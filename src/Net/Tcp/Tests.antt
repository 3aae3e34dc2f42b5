-- ===== src/Net/Tcp/Tests.antt =====
-- The model of src/tcp.rs on concrete segments.
use sysrust.Common.{ℕ, ◌+◌, ◌-◌, ◌≡◌, [], ◌∷◌, ◌++◌, true, some, arith, refl, find_from}
use sysrust.Net.{Bytes, net_ip_addr, take}
use sysrust.Net.Tcp.{
  TcpState, TcpConn, Tcp, new, set_conn, segment, tcp_checksum, push_all, take_out, available, ack,
  psh,
}
use sysrust.Net.Tcp.Calls.{opening, connect}
use sysrust.Net.Tcp.Fifo.{contents, IsRing, push_all-contents, take_out-Taken, Taken}
use sysrust.Net.Tcp.Handshake.{ConnectOutcome, connect-ConnectOutcome}
use sysrust.Net.Tcp.Machine.{SlotAfter, rx-SlotAfter, rx_silent}
use sysrust.Net.Tcp.Receive.{Segment, parse, rx}
use sysrust.Net.Tcp.Segments.{tcp_checksum-segment}

abbrev booted : Tcp
booted = record { conns = λ i. new; next_local_port = 49152 }

abbrev server : ℕ
server = 0x0a00_0202

abbrev line : TcpConn
line = record (opening server 80 49152 7) {
  state = TcpState.established;
  connected = true;
  rx_head = 4094;
  rx_tail = 4094;
}

abbrev talking : Tcp
talking = set_conn 0 line booted

-- What the server at port 80 would send with these flags: both addresses change places.
abbrev from_server : (flags : ℕ) (payload : Bytes) → Bytes
from_server flags payload =
    segment
      (record new {
        remote_ip = server;
        remote_port = 49152;
        local_port = 80;
        send_seq = 500;
        send_ack = 86417;
      })
      flags payload

answered :
    (connect server 80 7 (λ k. [] ∷ ((server, from_server 18 []) ∷ []) ∷ [] ∷ []) booted).0 ≡ some 0
unfolding connect segment find_from
answered = refl

abbrev reset_segment : Segment
reset_segment = record {
  src_port = 80;
  dst_port = 49152;
  seq = 500;
  ack_num = 86417;
  flags = 4;
  payload = [];
}

reset_parsed : parse server (from_server 4 []) ≡ some reset_segment
unfolding parse segment
reset_parsed = refl

tcp_checksum-segment_example :
    tcp_checksum net_ip_addr server (segment line (ack + psh) (104 ∷ 105 ∷ [])) ≡ 0
tcp_checksum-segment_example =
    tcp_checksum-segment line (ack + psh) (104 ∷ 105 ∷ []) (omega arith) (ground arith)
      (omega arith)

push_all-contents_example :
    IsRing (push_all (1 ∷ 2 ∷ 3 ∷ []) line)
    × (contents (push_all (1 ∷ 2 ∷ 3 ∷ []) line)
        ≡ contents line ++ take (4095 - available line) (1 ∷ 2 ∷ 3 ∷ []))
push_all-contents_example = push_all-contents (1 ∷ 2 ∷ 3 ∷ []) line (omega arith, omega arith)

take_out-Taken_example :
    Taken 2 (record line { rx_head = 1 }) (take_out 2 (record line { rx_head = 1 }))
take_out-Taken_example = take_out-Taken 2 (record line { rx_head = 1 }) (omega arith, omega arith)

rx-SlotAfter_example : SlotAfter server 0 talking (rx server (from_server 17 (65 ∷ [])) talking)
rx-SlotAfter_example = rx-SlotAfter server (from_server 17 (65 ∷ [])) talking 0

rx_silent_example : (rx server (from_server 4 []) talking).1 ≡ []
rx_silent_example = rx_silent server (from_server 4 []) talking reset_segment reset_parsed refl

connect-ConnectOutcome_example :
    ConnectOutcome server 80 booted
      (connect server 80 7 (λ k. [] ∷ ((server, from_server 18 []) ∷ []) ∷ [] ∷ []) booted)
connect-ConnectOutcome_example =
    connect-ConnectOutcome server 80 7 (λ k. [] ∷ ((server, from_server 18 []) ∷ []) ∷ [] ∷ [])
      booted
