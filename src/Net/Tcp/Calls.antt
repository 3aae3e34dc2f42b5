-- ===== src/Net/Tcp/Calls.antt =====
-- The blocking calls of src/tcp.rs: connect, send, recv and close. A wait is a list with one entry
-- for each round of its loop until the time is up: the segments that interrupts hand to `rx` during
-- that round's `hlt`, each with the address of its sender.
use sysrust.Common.{
  ℕ, zero, suc, ◌+◌, ◌*◌, ◌%◌, ◌^◌, List, [], ◌∷◌, ◌++◌, Bool, true, false, ◌||◌, not, Option, some,
  none, ◌==◌, leb, if◌then◌else◌, length,
}
use sysrust.Net.{Bytes}
use sysrust.Net.Tcp.{
  TcpState, TcpConn, new, Tcp, set_conn, Sent, fin, syn, psh, ack, tcp_max_conns, tcp_send_segment,
  tcp_alloc_conn, take_out,
}
use sysrust.Net.Tcp.Receive.{rx}

abbrev pub Rounds : Type 0
Rounds = List (List (ℕ × Bytes))

unfoldable pub rx_all : List (ℕ × Bytes) → Tcp → Tcp × Sent
unfolding rx
rx_all [] s = (s, [])
rx_all ((src_ip, packet) ∷ more) s =
    let (s1, sent) = rx src_ip packet s in let (s2, later) = rx_all more s1 in (s2, sent ++ later)

-- A waiting loop on connection `i`: true when its test passed before the time was up.
unfoldable pub wait_until : (done : TcpConn → Bool) (i : ℕ) → Rounds → Tcp → Bool × Tcp × Sent
unfolding rx_all
wait_until done i [] s = (false, s, [])
wait_until done i (arrived ∷ more) s =
    let (s1, sent) = rx_all arrived s in
    let (r, s2, later) = wait_until done i more s1 in
    if done (s.conns i) then (true, s, []) else (r, s2, sent ++ later)

abbrev pub is_established : TcpState → Bool
is_established TcpState.established = true
is_established _ = false

abbrev pub is_closed : TcpState → Bool
is_closed TcpState.closed = true
is_closed _ = false

abbrev pub is_time_wait : TcpState → Bool
is_time_wait TcpState.time_wait = true
is_time_wait _ = false

abbrev pub is_syn_sent : TcpState → Bool
is_syn_sent TcpState.syn_sent = true
is_syn_sent _ = false

-- NEXT_LOCAL_PORT.wrapping_add(1), which skips the low ports when it wraps.
abbrev pub port_after : ℕ → ℕ
port_after port = let next = (port + 1) % 2 ^ 16 in if next == 0 then 49152 else next

-- The connection that `connect` puts in its slot.
abbrev pub opening : (remote_ip remote_port local_port ticks : ℕ) → TcpConn
opening remote_ip remote_port local_port ticks = record new {
  in_use = true;
  state = TcpState.syn_sent;
  remote_ip = remote_ip;
  remote_port = remote_port;
  local_port = local_port;
  send_seq = (ticks * 12345 + 1) % 2 ^ 32;
}

-- The attempts from number `k` on, `n` of them left; each sends a SYN and waits.
unfoldable pub connect_attempts : (n k i : ℕ) → (ℕ → Rounds) → Tcp → Bool × Tcp × Sent
unfolding tcp_send_segment wait_until
connect_attempts zero k i rounds s = (false, s, [])
connect_attempts (suc n) k i rounds s =
    let (done, s1, during) = wait_until (λ c. c.connected) i (rounds k) s in
    let (r, s2, later) = connect_attempts n (k + 1) i rounds s1 in
    let request = tcp_send_segment (s.conns i) syn [] in
    if done then (true, s1, request ++ during) else (r, s2, request ++ during ++ later)

-- `ticks` is the timer at the call.
unfoldable pub connect :
    (remote_ip remote_port ticks : ℕ) → (ℕ → Rounds) → Tcp → Option ℕ × Tcp × Sent
unfolding tcp_alloc_conn connect_attempts
connect remote_ip remote_port ticks rounds s = elim (tcp_alloc_conn s) [
  | none ↦ (none, s, [])
  | some i ↦
      let s1 = record (set_conn i (opening remote_ip remote_port s.next_local_port ticks) s) {
        next_local_port = port_after s.next_local_port;
      } in
      let (done, s2, sent) = connect_attempts 3 0 i rounds s1 in
      if done then (some i, s2, sent) else (
        none,
        set_conn i (record (s2.conns i) { in_use = false; state = TcpState.closed }) s2,
        sent,
      )
]

-- True is the result 0, false is -1.
unfoldable pub send : (conn_id : ℕ) (payload : Bytes) → Tcp → Bool × Tcp × Sent
unfolding tcp_send_segment
send conn_id payload s =
    let c = s.conns conn_id in
    if leb tcp_max_conns conn_id
    then (false, s, [])
    else if not c.in_use || not (is_established c.state)
    then (false, s, [])
    else (
      true,
      set_conn conn_id (record c { send_seq = (c.send_seq + length payload) % 2 ^ 32 }) s,
      tcp_send_segment c (ack + psh) payload,
    )

abbrev pub can_read : TcpConn → Bool
can_read c = not (c.rx_head == c.rx_tail) || c.fin_received

-- The bytes put into the caller's buffer.
unfoldable pub recv : (conn_id max_len : ℕ) → Rounds → Tcp → Bytes × Tcp × Sent
unfolding wait_until take_out
recv conn_id max_len rounds s =
    let (done, s1, sent) = wait_until can_read conn_id rounds s in
    let (bytes, c) = take_out max_len (s1.conns conn_id) in
    if leb tcp_max_conns conn_id
    then ([], s, [])
    else if not (s.conns conn_id).in_use
    then ([], s, [])
    else if done
    then (bytes, set_conn conn_id c s1, sent)
    else ([], s1, sent)

-- The FIN of `close` and the wait for the peer; in other states nothing.
unfoldable pub close_started : (i : ℕ) → Rounds → Tcp → Tcp × Sent
unfolding tcp_send_segment wait_until
close_started i rounds s =
    let c = s.conns i in
    let closing =
      set_conn i (record c { send_seq = (c.send_seq + 1) % 2 ^ 32; state = TcpState.fin_wait_1 })
        s in
    let (done, s1, during) =
      wait_until (λ d. is_closed d.state || is_time_wait d.state) i rounds closing in
    if is_established c.state || is_syn_sent c.state
    then (s1, tcp_send_segment c (fin + ack) [] ++ during)
    else (s, [])

-- The short wait in TIME_WAIT: every round is waited for.
unfoldable pub linger : (i : ℕ) → Rounds → Tcp → Tcp × Sent
unfolding wait_until
linger i rounds s =
    let (done, s1, during) = wait_until (λ d. false) i rounds s in
    if is_time_wait (s.conns i).state then (s1, during) else (s, [])

unfoldable pub close : (conn_id : ℕ) → (first second : Rounds) → Tcp → Tcp × Sent
unfolding close_started linger
close conn_id first second s =
    let (s1, sent) = close_started conn_id first s in
    let (s2, later) = linger conn_id second s1 in
    if leb tcp_max_conns conn_id
    then (s, [])
    else if not (s.conns conn_id).in_use
    then (s, [])
    else (
      set_conn conn_id (record (s2.conns conn_id) { in_use = false; state = TcpState.closed }) s2,
      sent ++ later,
    )
