-- ===== src/Net/Tcp/Machine.antt =====
-- The whole receiver of src/tcp.rs: each slot after a segment, and silence after a reset.
use sysrust.Common.{
  ℕ, ◌≡◌, ◌⊎◌, [], true, some, none, ◌==◌, arith, refl, ◌∙◌, sym, Bool-cases, Option-cases, inl,
  inr, ==→eq, find_from-some,
}
use mathlib.Core.Path.{subst}
use sysrust.Net.{Bytes}
use sysrust.Net.Tcp.{
  TcpState, TcpConn, Tcp, Sent, rst, ack, fin, has_flag, matches, tcp_find_conn, tcp_max_conns,
  set_conn,
}
use sysrust.Net.Tcp.Receive.{
  Segment, parse, reset_reply, on_established, on_fin_wait_1, on_fin_wait_2, on_state, on_segment,
  rx,
}
use sysrust.Net.Tcp.Transitions.{
  Step, stays, is_reset, peer_closes, fin_is_acked, both_close, peer_closes_too, OpenAs, IsOpen,
  Moves, take_data-Steady, unmoved, on_syn_sent-Moves,
}

on_established-Moves :
    (g : Segment) (c : TcpConn) → c.state ≡ TcpState.established → Moves c (on_established g c)
unfolding on_established
on_established-Moves g c e =
    let (peer, state, in_use, connected) = take_data-Steady g c in
    let flags : IsOpen c → OpenAs TcpState.established c.in_use c.connected =
      subst (λ st. OpenAs st c.in_use c.connected) e in
    elim (Bool-cases (has_flag g.flags fin)) [
      | inl last ↦
          rw (on_established, last)
            (
              peer,
              subst (λ st. Step st TcpState.time_wait) (sym e) peer_closes,
              λ o. (in_use ∙ (flags o).0, connected ∙ (flags o).1),
            )
      | inr more ↦ rw (on_established, more, state, in_use, connected) (peer, stays c.state, λ o. o)
    ]

on_fin_wait_1-Moves :
    (g : Segment) (c : TcpConn) → c.state ≡ TcpState.fin_wait_1 → Moves c (on_fin_wait_1 g c)
unfolding on_fin_wait_1
on_fin_wait_1-Moves g c e = elim (Bool-cases (has_flag g.flags ack)) [
  | inr none_acked ↦ rw (on_fin_wait_1, none_acked) (unmoved c)
  | inl acked ↦ elim (Bool-cases (has_flag g.flags fin)) [
    | inl last ↦ rw (on_fin_wait_1, acked, last, e) ((refl, refl, refl), both_close, λ o. absurd o)
    | inr more ↦ rw (on_fin_wait_1, acked, more, e) ((refl, refl, refl), fin_is_acked, λ o. o)
  ]
]

on_fin_wait_2-Moves :
    (g : Segment) (c : TcpConn) → c.state ≡ TcpState.fin_wait_2 → Moves c (on_fin_wait_2 g c)
unfolding on_fin_wait_2
on_fin_wait_2-Moves g c e = elim (Bool-cases (has_flag g.flags fin)) [
  | inl last ↦ rw (on_fin_wait_2, last, e) ((refl, refl, refl), peer_closes_too, λ o. absurd o)
  | inr more ↦ rw (on_fin_wait_2, more) (unmoved c)
]

on_state-Moves :
    (st : TcpState) (g : Segment) (c : TcpConn) → c.state ≡ st → Moves c (on_state st g c)
unfolding on_state
on_state-Moves TcpState.syn_sent g c e = on_syn_sent-Moves g c e
on_state-Moves TcpState.established g c e = on_established-Moves g c e
on_state-Moves TcpState.fin_wait_1 g c e = on_fin_wait_1-Moves g c e
on_state-Moves TcpState.fin_wait_2 g c e = on_fin_wait_2-Moves g c e
on_state-Moves TcpState.time_wait g c e = unmoved c
on_state-Moves TcpState.closed g c e = unmoved c

pub on_segment-Moves : (g : Segment) (c : TcpConn) → Moves c (on_segment g c)
unfolding on_segment
on_segment-Moves g c = elim (Bool-cases (has_flag g.flags rst)) [
  | inl reset ↦ rw (on_segment, reset) ((refl, refl, refl), is_reset c.state, λ o. refl)
  | inr other ↦ rw (on_segment, other) (on_state-Moves c.state g c refl)
]

-- Slot `j` is as it was, or holds a connection with the sender, which makes a step.
abbrev pub SlotAfter : (src_ip j : ℕ) (s : Tcp) → Tcp × Sent → Type 0
SlotAfter src_ip j s (s', sent) =
    (s'.conns j ≡ s.conns j)
    ⊎ (((s.conns j).in_use ≡ true)
        × ((s.conns j).remote_ip ≡ src_ip)
        × Moves (s.conns j) (s'.conns j, sent))

matched :
    (ip port local : ℕ) (c : TcpConn)
    → matches ip port local c ≡ true
    → (c.in_use ≡ true) × (c.remote_ip ≡ ip)
matched ip port local c h = (ground arith, ground arith)

rx-none :
    (src_ip : ℕ) (packet : Bytes) (s : Tcp)
    → parse src_ip packet ≡ none
    → rx src_ip packet s ≡ (s, [])
unfolding rx
rx-none src_ip packet s h = rw (rx, h) refl

rx_unmatched :
    (src_ip : ℕ) (packet : Bytes) (s : Tcp) (g : Segment)
    → parse src_ip packet ≡ some g
    → tcp_find_conn src_ip g.src_port g.dst_port s ≡ none
    → rx src_ip packet s ≡ (s, reset_reply src_ip g)
unfolding rx
rx_unmatched src_ip packet s g h f = rw (rx, h, f) refl

rx_matched :
    (src_ip : ℕ) (packet : Bytes) (s : Tcp) (g : Segment) (i : ℕ)
    → parse src_ip packet ≡ some g
    → tcp_find_conn src_ip g.src_port g.dst_port s ≡ some i
    → rx src_ip packet s ≡ (set_conn i (on_segment g (s.conns i)).0 s, (on_segment g (s.conns i)).1)
unfolding rx
rx_matched src_ip packet s g i h f = rw (rx, h, f) refl

-- A segment leaves a slot of the table as it was, unless the slot is in use with a connection to
-- the sender of the segment; then the address and the ports stay, the state stays or makes one of
-- the six changes reset, SYN_SENT to ESTABLISHED, ESTABLISHED to TIME_WAIT, FIN_WAIT_1 to
-- FIN_WAIT_2 or TIME_WAIT, FIN_WAIT_2 to TIME_WAIT, and a connection that is not closed on this
-- side keeps flags that agree with its state.
pub rx-SlotAfter :
    (src_ip : ℕ) (packet : Bytes) (s : Tcp) (j : ℕ) → SlotAfter src_ip j s (rx src_ip packet s)
unfolding tcp_find_conn
rx-SlotAfter src_ip packet s j = elim (Option-cases (parse src_ip packet)) [
  | inl bad ↦ rw (rx-none src_ip packet s bad) (inl refl)
  | inr (g, good) ↦ elim (Option-cases (tcp_find_conn src_ip g.src_port g.dst_port s)) [
    | inl nobody ↦ rw (rx_unmatched src_ip packet s g good nobody) (inl refl)
    | inr (i, found) ↦ elim (Bool-cases (j == i)) [
      | inr other ↦ rw (rx_matched src_ip packet s g i good found, other) (inl refl)
      | inl same ↦
          let hit =
            find_from-some (λ k. matches src_ip g.src_port g.dst_port (s.conns k)) tcp_max_conns 0 i
              found in
          let who = matched src_ip g.src_port g.dst_port (s.conns i) hit.2 in
          rw (rx_matched src_ip packet s g i good found, same, ==→eq j i same)
            (inr (who.0, who.1, on_segment-Moves g (s.conns i)))
    ]
  ]
]

on_segment_silent :
    (g : Segment) (c : TcpConn) → has_flag g.flags rst ≡ true → (on_segment g c).1 ≡ []
unfolding on_segment
on_segment_silent g c reset = rw (on_segment, reset) refl

-- A segment that passes the tests of the receiver and has the RST flag is never answered, whether
-- there is a connection for it or not.
pub rx_silent :
    (src_ip : ℕ) (packet : Bytes) (s : Tcp) (g : Segment)
    → parse src_ip packet ≡ some g
    → has_flag g.flags rst ≡ true
    → (rx src_ip packet s).1 ≡ []
unfolding reset_reply
rx_silent src_ip packet s g good reset =
    elim (Option-cases (tcp_find_conn src_ip g.src_port g.dst_port s)) [
      | inl nobody ↦ rw (rx_unmatched src_ip packet s g good nobody, reset_reply, reset) refl
      | inr (i, found) ↦
          rw (rx_matched src_ip packet s g i good found) (on_segment_silent g (s.conns i) reset)
    ]
