-- ===== src/Net/Tcp/Handshake.antt =====
-- What `connect` of src/tcp.rs promises, whatever arrives while it waits.
use sysrust.Common.{
  ℕ, zero, suc, ◌+◌, ◌≡◌, ◌<◌, ◌⊎◌, List, [], ◌∷◌, ◌++◌, Bool, true, false, not, Option, some, none,
  ◌==◌, arith, refl, ap, ◌∙◌, Bool-cases, Option-cases, inl, inr, find_from-some, find_from-none,
}
use sysrust.Net.{Bytes}
use sysrust.Net.Tcp.{
  TcpState, TcpConn, Tcp, Sent, tcp_max_conns, tcp_alloc_conn, set_conn, tcp_send_segment, syn,
}
use sysrust.Net.Tcp.Calls.{
  Rounds, rx_all, wait_until, opening, connect_attempts, connect, port_after,
}
use sysrust.Net.Tcp.Machine.{rx-SlotAfter}
use sysrust.Net.Tcp.Receive.{rx}
use sysrust.Net.Tcp.Transitions.{OpenAs, IsOpen}

-- The connection that was asked for, not closed on this side.
abbrev pub IsFor : (ip port local : ℕ) → TcpConn → Type 0
IsFor ip port local c =
    (c.remote_ip ≡ ip) × (c.remote_port ≡ port) × (c.local_port ≡ local) × IsOpen c

module _ (ip port local i : ℕ) where
  rx-IsFor :
      (src_ip : ℕ) (packet : Bytes) (s : Tcp)
      → IsFor ip port local (s.conns i)
      → IsFor ip port local ((rx src_ip packet s).0.conns i)
  rx-IsFor src_ip packet s (a, b, c, open_before) = elim (rx-SlotAfter src_ip packet s i) [
    | inl same ↦ rw same (a, b, c, open_before)
    | inr (used, theirs, (peer, step, opens)) ↦
        (peer.0 ∙ a, peer.1 ∙ b, peer.2 ∙ c, opens open_before)
  ]

  rx_all-IsFor :
      (arrived : List (ℕ × Bytes)) (s : Tcp)
      → IsFor ip port local (s.conns i)
      → IsFor ip port local ((rx_all arrived s).0.conns i)
  unfolding rx_all
  rx_all-IsFor [] s h = h
  rx_all-IsFor ((src_ip, packet) ∷ more) s h =
      rx_all-IsFor more (rx src_ip packet s).0 (rx-IsFor src_ip packet s h)

  -- After a wait: the invariant, and the test where the wait succeeded.
  abbrev Waited : (TcpConn → Bool) → Bool × Tcp × Sent → Type 0
  Waited done (true, s, sent) = IsFor ip port local (s.conns i) × (done (s.conns i) ≡ true)
  Waited done (false, s, sent) = IsFor ip port local (s.conns i)

  kept :
      (done : TcpConn → Bool) (r : Bool × Tcp × Sent)
      → Waited done r
      → IsFor ip port local (r.1.conns i)
  kept done (true, s, sent) h = h.0
  kept done (false, s, sent) h = h

  resent :
      (done : TcpConn → Bool) (r : Bool × Tcp × Sent) (sent : Sent)
      → Waited done r
      → Waited done (r.0, r.1, sent)
  resent done (true, s, before) sent h = h
  resent done (false, s, before) sent h = h

  passed :
      (done : TcpConn → Bool) (r : Bool × Tcp × Sent)
      → Waited done r
      → r.0 ≡ true
      → IsFor ip port local (r.1.conns i) × (done (r.1.conns i) ≡ true)
  passed done (true, s, sent) h e = h
  passed done (false, s, sent) h e = absurd (cc)

  wait_until-Waited :
      (done : TcpConn → Bool) (rounds : Rounds) (s : Tcp)
      → IsFor ip port local (s.conns i)
      → Waited done (wait_until done i rounds s)
  unfolding wait_until
  wait_until-Waited done [] s h = h
  wait_until-Waited done (arrived ∷ more) s h = elim (Bool-cases (done (s.conns i))) [
    | inl worked ↦ rw (wait_until, worked) (h, worked)
    | inr failed ↦
        rw (wait_until, failed)
          (resent done (wait_until done i more (rx_all arrived s).0)
            ((rx_all arrived s).1 ++ (wait_until done i more (rx_all arrived s).0).2)
            (wait_until-Waited done more (rx_all arrived s).0 (rx_all-IsFor arrived s h)))
  ]

  attempts-Waited :
      (n k : ℕ) (rounds : ℕ → Rounds) (s : Tcp)
      → IsFor ip port local (s.conns i)
      → Waited (λ c. c.connected) (connect_attempts n k i rounds s)
  unfolding connect_attempts
  attempts-Waited zero k rounds s h = h
  attempts-Waited (suc n) k rounds s h =
      let first = wait_until (λ c. c.connected) i (rounds k) s in
      let waited = wait_until-Waited (λ c. c.connected) (rounds k) s h in
      elim (Bool-cases first.0) [
        | inl worked ↦ rw (connect_attempts, worked) (passed (λ c. c.connected) first waited worked)
        | inr failed ↦
            rw (connect_attempts, failed)
              (resent (λ c. c.connected) (connect_attempts n (k + 1) i rounds first.1)
                (tcp_send_segment (s.conns i) syn []
                  ++ first.2
                  ++ (connect_attempts n (k + 1) i rounds first.1).2)
                (attempts-Waited n (k + 1) rounds first.1 (kept (λ c. c.connected) first waited)))
      ]

-- A connection that is established, or that the peer has closed since.
abbrev pub IsLive : TcpState → Type 0
IsLive TcpState.established = Unit {0}
IsLive TcpState.time_wait = Unit {0}
IsLive _ = ⊥

not-true : (b : Bool) → not b ≡ true → b ≡ false
not-true true h = absurd (cc)
not-true false h = refl

not-false : (b : Bool) → not b ≡ false → b ≡ true
not-false true h = refl
not-false false h = absurd (cc)

==-refl : (i : ℕ) → (i == i) ≡ true
==-refl i = ground arith

set_conn-same : (i : ℕ) (c : TcpConn) (s : Tcp) → (set_conn i c s).conns i ≡ c
set_conn-same i c s = rw (==-refl i) refl

live :
    (c : TcpConn) (st : TcpState)
    → OpenAs st c.in_use c.connected
    → c.connected ≡ true
    → IsLive st × (c.in_use ≡ true)
live c TcpState.syn_sent h e = absurd (cc)
live c TcpState.established h e = (tt, h.0)
live c TcpState.time_wait h e = (tt, h.0)
live c TcpState.closed h e = absurd (cc)
live c TcpState.fin_wait_1 h e = absurd h
live c TcpState.fin_wait_2 h e = absurd h

-- What `connect` returns: a connection to the peer in a slot that was free; or a failure, with every
-- slot in use and nothing done, or with a slot that was free and is so again.
abbrev pub ConnectOutcome : (ip port : ℕ) (s : Tcp) → Option ℕ × Tcp × Sent → Type 0
ConnectOutcome ip port s (some i, s', sent) =
    (i < tcp_max_conns)
    × ((s.conns i).in_use ≡ false)
    × ((s'.conns i).in_use ≡ true)
    × IsLive (s'.conns i).state
    × ((s'.conns i).remote_ip ≡ ip)
    × ((s'.conns i).remote_port ≡ port)
    × ((s'.conns i).local_port ≡ s.next_local_port)
ConnectOutcome ip port s (none, s', sent) =
    (((i : ℕ) → i < tcp_max_conns → (s.conns i).in_use ≡ true) × (s' ≡ s) × (sent ≡ []))
    ⊎ ((i : ℕ) × (i < tcp_max_conns) × ((s.conns i).in_use ≡ false) × ((s'.conns i).in_use ≡ false))

module _ (ip port ticks : ℕ) (rounds : ℕ → Rounds) (s : Tcp) where
  connect-none : tcp_alloc_conn s ≡ none → connect ip port ticks rounds s ≡ (none, s, [])
  unfolding connect
  connect-none full = rw (connect, full) refl

  module _ (i : ℕ) (free : tcp_alloc_conn s ≡ some i) where
    abbrev started : Tcp
    started = record (set_conn i (opening ip port s.next_local_port ticks) s) {
      next_local_port = port_after s.next_local_port;
    }

    abbrev tried : Bool × Tcp × Sent
    tried = connect_attempts 3 0 i rounds started

    connect_succeeds : tried.0 ≡ true → connect ip port ticks rounds s ≡ (some i, tried.1, tried.2)
    unfolding connect
    connect_succeeds worked = rw (connect, free, worked) refl

    connect_fails :
        tried.0 ≡ false
        → connect ip port ticks rounds s ≡ (
          none,
          set_conn i (record (tried.1.conns i) { in_use = false; state = TcpState.closed }) tried.1,
          tried.2,
        )
    unfolding connect
    connect_fails failed = rw (connect, free, failed) refl

    started-IsFor : IsFor ip port s.next_local_port (started.conns i)
    started-IsFor = rw (==-refl i) (refl, refl, refl, (refl, refl))

  -- For every state, timer value and traffic while it waits, connect either returns a slot below 4
  -- that was not in use and that now is, with a connection that is established or that the peer
  -- has closed since, to the address and port asked for, from the local port of the counter; or
  -- fails with all slots in use, the state unchanged and nothing sent; or fails and leaves a slot
  -- that was not in use not in use.
  pub connect-ConnectOutcome : ConnectOutcome ip port s (connect ip port ticks rounds s)
  unfolding tcp_alloc_conn
  connect-ConnectOutcome = elim (Option-cases (tcp_alloc_conn s)) [
    | inl full ↦ rw (connect-none full) (
        inl (
          λ i h.
              not-false (s.conns i).in_use (
                find_from-none (λ k. not (s.conns k).in_use) tcp_max_conns 0 full i (omega arith)
                  h),
          refl,
          refl,
        ))
    | inr (i, free) ↦
        let hit = find_from-some (λ k. not (s.conns k).in_use) tcp_max_conns 0 i free in
        let waited =
          attempts-Waited ip port s.next_local_port i 3 0 rounds (started i free)
            (started-IsFor i free) in
        let unused : (s.conns i).in_use ≡ false = not-true (s.conns i).in_use hit.2 in
        elim (Bool-cases (tried i free).0) [
          | inl worked ↦
              let ((a, b, c, o), up) =
                passed ip port s.next_local_port i (λ d. d.connected) (tried i free) waited
                  worked in
              let (alive, used) =
                live ((tried i free).1.conns i) ((tried i free).1.conns i).state o up in
              rw (connect_succeeds i free worked) (hit.1, unused, used, alive, a, b, c)
          | inr failed ↦ rw (connect_fails i free failed) (
              inr (
                i,
                hit.1,
                unused,
                ap (λ d. d.in_use)
                    (set_conn-same i
                      (record ((tried i free).1.conns i) {
                        in_use = false;
                        state = TcpState.closed;
                      })
                      (tried i free).1),
              ))
        ]
  ]
