-- ===== src/Net/Resolution.antt =====
-- The packets of src/arp.rs: what `rx` reads is what the builders wrote, and what `resolve` reports.
use sysrust.Common.{
  ℕ, zero, suc, ◌+◌, ◌^◌, ◌≡◌, ◌<◌, ◌≤◌, List, [], ◌∷◌, ◌++◌, ◌&&◌, Option, some, none, ◌==◌,
  if◌then◌else◌, Table, Option-cases, arith, refl, ◌∙◌, sym, length-append, inl, inr, length,
}
use mathlib.Core.Path.{subst}
use sysrust.Net.{two_bytes, four_bytes, Bytes, net_ip_addr}
use sysrust.Net.Arp.{
  ArpEntry, arp_table_update, arp_table_lookup, arp_packet, arp_send_reply, arp_send_request, rx,
  resolve, attempts, poll, rx_all,
}

-- The six bytes of an address.
pub record Mac : Type 0 where
  pub b0 : ℕ
  pub b1 : ℕ
  pub b2 : ℕ
  pub b3 : ℕ
  pub b4 : ℕ
  pub b5 : ℕ

abbrev pub bytes_of : Mac → Bytes
bytes_of m = m.b0 ∷ m.b1 ∷ m.b2 ∷ m.b3 ∷ m.b4 ∷ m.b5 ∷ []

-- On a packet that the builders lay out, for an opcode below 2^16 and addresses below 2^32,
-- arp::rx learns the address and the MAC address of the sender, and sends a reply to them exactly
-- when the opcode is 1 and our address is asked for.
pub rx-arp_packet :
    (our_mac : Bytes) (sender target : Mac) (opcode sender_ip target_ip : ℕ) (t : Table ArpEntry)
    → opcode < 2 ^ 16
    → sender_ip < 2 ^ 32
    → target_ip < 2 ^ 32
    → rx our_mac (arp_packet opcode (bytes_of sender) sender_ip (bytes_of target) target_ip) t ≡ (
      arp_table_update sender_ip (bytes_of sender) t,
      if (opcode == 1) && (target_ip == net_ip_addr)
          then arp_send_reply our_mac (bytes_of sender) sender_ip
          else [],
    )
unfolding rx arp_packet
rx-arp_packet our_mac sender target opcode sender_ip target_ip t ho hs ht =
    rw (two_bytes opcode ho, four_bytes sender_ip hs, four_bytes target_ip ht) refl

-- An answer is what the table says afterwards; without one, at least `n` frames were sent.
abbrev pub Resolved : (ip n : ℕ) → Option Bytes × Table ArpEntry × List Bytes → Type 0
Resolved ip n (some mac, t, sent) = arp_table_lookup ip t ≡ some mac
Resolved ip n (none, t, sent) = n ≤ length sent

module _ (ip : ℕ) where
  -- A list of frames before the answer.
  Resolved-weaken :
      (n k : ℕ) (r : Option Bytes) (t : Table ArpEntry) (sent early : List Bytes)
      → k ≤ n + length early
      → Resolved ip n (r, t, sent)
      → Resolved ip k (r, t, early ++ sent)
  Resolved-weaken n k (some mac) t sent early h done = done
  Resolved-weaken n k none t sent early h done = omega (arith, h, done, length-append early sent)

  pub answered :
      (n : ℕ) (r : Option Bytes × Table ArpEntry × List Bytes) (mac : Bytes)
      → Resolved ip n r
      → r.0 ≡ some mac
      → arp_table_lookup ip r.1 ≡ some mac
  answered n (some m, t, sent) mac h e = h ∙ e
  answered n (none, t, sent) mac h e = absurd (cc)

  pub unanswered :
      (n : ℕ) (r : Option Bytes × Table ArpEntry × List Bytes)
      → Resolved ip n r
      → r.0 ≡ none
      → n ≤ length r.2
  unanswered n (some m, t, sent) h e = absurd (cc)
  unanswered n (none, t, sent) h e = h

  request_sent : (our_mac : Mac) → length (arp_send_request (bytes_of our_mac) ip) ≡ 1
  unfolding arp_send_request arp_packet
  request_sent our_mac = refl

module _ (our_mac : Mac) where
  poll-known :
      (ip : ℕ) (arrived : List Bytes) (more : List (List Bytes)) (t : Table ArpEntry) (mac : Bytes)
      → arp_table_lookup ip t ≡ some mac
      → poll (bytes_of our_mac) ip (arrived ∷ more) t ≡ (some mac, t, [])
  unfolding poll
  poll-known ip arrived more t mac known = rw (poll, known) refl

  poll-unknown :
      (ip : ℕ) (arrived : List Bytes) (more : List (List Bytes)) (t : Table ArpEntry)
      → arp_table_lookup ip t ≡ none
      → let during = rx_all (bytes_of our_mac) arrived t in
        let later = poll (bytes_of our_mac) ip more during.0 in
        poll (bytes_of our_mac) ip (arrived ∷ more) t ≡ (later.0, later.1, during.1 ++ later.2)
  unfolding poll
  poll-unknown ip arrived more t unknown = rw (poll, unknown) refl

  poll-Resolved :
      (ip : ℕ) (rounds : List (List Bytes)) (t : Table ArpEntry)
      → Resolved ip 0 (poll (bytes_of our_mac) ip rounds t)
  unfolding poll
  poll-Resolved ip [] t = omega arith
  poll-Resolved ip (arrived ∷ more) t = elim (Option-cases (arp_table_lookup ip t)) [
    | inr (m, known) ↦ subst (Resolved ip 0) (sym (poll-known ip arrived more t m known)) known
    | inl unknown ↦
        let during = rx_all (bytes_of our_mac) arrived t in
        let later = poll (bytes_of our_mac) ip more during.0 in
        subst (Resolved ip 0) (sym (poll-unknown ip arrived more t unknown)) (
          Resolved-weaken ip 0 0 later.0 later.1 later.2 during.1 (omega arith)
            (poll-Resolved ip more during.0))
  ]

  attempts-some :
      (ip n i : ℕ) (rounds : ℕ → List (List Bytes)) (t : Table ArpEntry) (mac : Bytes)
      → let first = poll (bytes_of our_mac) ip (rounds i) t in
        first.0 ≡ some mac
        → attempts (bytes_of our_mac) ip (suc n) i rounds t
          ≡ (some mac, first.1, arp_send_request (bytes_of our_mac) ip ++ first.2)
  unfolding attempts
  attempts-some ip n i rounds t mac h = rw (attempts, h) refl

  attempts-none :
      (ip n i : ℕ) (rounds : ℕ → List (List Bytes)) (t : Table ArpEntry)
      → let first = poll (bytes_of our_mac) ip (rounds i) t in
        let later = attempts (bytes_of our_mac) ip n (i + 1) rounds first.1 in
        first.0 ≡ none
        → attempts (bytes_of our_mac) ip (suc n) i rounds t
          ≡ (later.0, later.1, (arp_send_request (bytes_of our_mac) ip ++ first.2) ++ later.2)
  unfolding attempts
  attempts-none ip n i rounds t h = rw (attempts, h) refl

  attempts-Resolved :
      (ip n i : ℕ) (rounds : ℕ → List (List Bytes)) (t : Table ArpEntry)
      → Resolved ip n (attempts (bytes_of our_mac) ip n i rounds t)
  unfolding attempts
  attempts-Resolved ip zero i rounds t = omega arith
  attempts-Resolved ip (suc n) i rounds t =
      let first = poll (bytes_of our_mac) ip (rounds i) t in
      let request = arp_send_request (bytes_of our_mac) ip in
      elim (Option-cases first.0) [
        | inr (m, found) ↦
            subst (Resolved ip (suc n)) (sym (attempts-some ip n i rounds t m found))
              (answered ip 0 first m (poll-Resolved ip (rounds i) t) found)
        | inl missed ↦
            let later = attempts (bytes_of our_mac) ip n (i + 1) rounds first.1 in
            subst (Resolved ip (suc n)) (sym (attempts-none ip n i rounds t missed)) (
              Resolved-weaken ip n (suc n) later.0 later.1 later.2 (request ++ first.2)
                (omega (arith, request_sent ip our_mac, length-append request first.2))
                (attempts-Resolved ip n (i + 1) rounds first.1))
      ]

  resolve-known :
      (ip : ℕ) (rounds : ℕ → List (List Bytes)) (t : Table ArpEntry) (mac : Bytes)
      → arp_table_lookup ip t ≡ some mac
      → resolve (bytes_of our_mac) ip rounds t ≡ (some mac, t, [])
  unfolding resolve
  resolve-known ip rounds t mac known = rw (resolve, known) refl

  resolve-unknown :
      (ip : ℕ) (rounds : ℕ → List (List Bytes)) (t : Table ArpEntry)
      → arp_table_lookup ip t ≡ none
      → resolve (bytes_of our_mac) ip rounds t ≡ attempts (bytes_of our_mac) ip 3 0 rounds t
  unfolding resolve
  resolve-unknown ip rounds t unknown = rw (resolve, unknown) refl

  -- Whatever arrives while it waits, a MAC address that resolve returns is the one that the table
  -- holds for the address when it returns, and a time-out comes after at least three frames were
  -- sent.
  pub resolve-Resolved :
      (ip : ℕ) (rounds : ℕ → List (List Bytes)) (t : Table ArpEntry)
      → Resolved ip 3 (resolve (bytes_of our_mac) ip rounds t)
  resolve-Resolved ip rounds t = elim (Option-cases (arp_table_lookup ip t)) [
    | inr (m, known) ↦ subst (Resolved ip 3) (sym (resolve-known ip rounds t m known)) known
    | inl unknown ↦
        subst (Resolved ip 3) (sym (resolve-unknown ip rounds t unknown))
          (attempts-Resolved ip 3 0 rounds t)
  ]
