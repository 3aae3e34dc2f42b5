-- ===== src/Net/Tcp/Transitions.antt =====
-- The state machine of src/tcp.rs: which state changes a segment can cause, and for whom.
use Prim.Native.Nat.{bit_and}
use sysrust.Common.{
  ◌+◌, ◌%◌, ◌^◌, ◌≡◌, [], ◌∷◌, Bool, true, false, ◌==◌, refl, length, store, Bool-cases, inl, inr,
}
use sysrust.Net.{Bytes}
use sysrust.Net.Tcp.{TcpState, TcpConn, Sent, ack, syn, push_all, rx_buf_size}
use sysrust.Net.Tcp.Receive.{Segment, on_syn_sent, take_data}

-- The state changes that an incoming segment can cause.
pub data Step : TcpState → TcpState → Type 0 where
  stays : (s : TcpState) → Step s s
  is_reset : (s : TcpState) → Step s TcpState.closed
  is_accepted : Step TcpState.syn_sent TcpState.established
  peer_closes : Step TcpState.established TcpState.time_wait
  fin_is_acked : Step TcpState.fin_wait_1 TcpState.fin_wait_2
  both_close : Step TcpState.fin_wait_1 TcpState.time_wait
  peer_closes_too : Step TcpState.fin_wait_2 TcpState.time_wait

-- The address and the ports of a connection.
abbrev pub SamePeer : TcpConn → TcpConn → Type 0
SamePeer c c' =
    (c'.remote_ip ≡ c.remote_ip) × (c'.remote_port ≡ c.remote_port) × (c'.local_port ≡ c.local_port)

-- The flags of a connection that nobody closes on this side.
abbrev pub OpenAs : TcpState → (in_use connected : Bool) → Type 0
OpenAs TcpState.syn_sent in_use connected = (in_use ≡ true) × (connected ≡ false)
OpenAs TcpState.established in_use connected = (in_use ≡ true) × (connected ≡ true)
OpenAs TcpState.time_wait in_use connected = (in_use ≡ true) × (connected ≡ true)
OpenAs TcpState.closed in_use connected = connected ≡ false
OpenAs TcpState.fin_wait_1 in_use connected = ⊥
OpenAs TcpState.fin_wait_2 in_use connected = ⊥

abbrev pub IsOpen : TcpConn → Type 0
IsOpen c = OpenAs c.state c.in_use c.connected

-- What a segment does to the connection that it belongs to.
abbrev pub Moves : TcpConn → TcpConn × Sent → Type 0
Moves c (c', sent) = SamePeer c c' × Step c.state c'.state × (IsOpen c → IsOpen c')

-- The data and its acknowledgement change neither the state nor the flags.
abbrev pub Steady : TcpConn → TcpConn → Type 0
Steady c c' =
    SamePeer c c' × (c'.state ≡ c.state) × (c'.in_use ≡ c.in_use) × (c'.connected ≡ c.connected)

pub steady : (c : TcpConn) → Steady c c
steady c = ((refl, refl, refl), refl, refl, refl)

push_all-Steady : (bs : Bytes) (c : TcpConn) → Steady c (push_all bs c)
unfolding push_all
push_all-Steady [] c = steady c
push_all-Steady (b ∷ bs) c = elim (Bool-cases ((c.rx_head + 1) % rx_buf_size == c.rx_tail)) [
  | inl full ↦ rw full (steady c)
  | inr space ↦ rw space (
      push_all-Steady bs
        (record c { rx_buf = store c.rx_buf c.rx_head b; rx_head = (c.rx_head + 1) % rx_buf_size }))
]

abbrev pub SteadyResult : TcpConn → TcpConn × Sent → Type 0
SteadyResult c (c', sent) = Steady c c'

pub take_data-Steady : (g : Segment) (c : TcpConn) → SteadyResult c (take_data g c)
unfolding take_data
take_data-Steady g c = elim (Bool-cases (length g.payload == 0)) [
  | inl empty ↦ rw (take_data, empty) (steady c)
  | inr some_data ↦ rw (take_data, some_data) (push_all-Steady g.payload c)
]

pub unmoved : (c : TcpConn) → Moves c (c, [])
unmoved c = ((refl, refl, refl), stays c.state, λ o. o)

pub on_syn_sent-Moves :
    (g : Segment) (c : TcpConn) → c.state ≡ TcpState.syn_sent → Moves c (on_syn_sent g c)
unfolding on_syn_sent
on_syn_sent-Moves g c e = elim (Bool-cases (bit_and g.flags (syn + ack) == syn + ack)) [
  | inr other ↦ rw (on_syn_sent, other) (unmoved c)
  | inl answer ↦ elim (Bool-cases (g.ack_num == (c.send_seq + 1) % 2 ^ 32)) [
    | inr wrong ↦ rw (on_syn_sent, answer, wrong) (unmoved c)
    | inl right ↦
        rw (on_syn_sent, answer, right, e) ((refl, refl, refl), is_accepted, λ o. (o.0, refl))
  ]
]
