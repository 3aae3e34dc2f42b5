-- ===== src/Net/Ping.antt =====
-- The exchange of src/icmp.rs: a request, the reply of a peer that runs the same code, its receipt.
use sysrust.Common.{ℕ, ◌^◌, ◌≡◌, ◌<◌, [], ◌∷◌, some, arith, refl, length}
use sysrust.Net.{Bytes, IsBytes, put16, two_bytes}
use sysrust.Net.Checksum.{checksum, checksum_verifies}
use sysrust.Net.Icmp.{Icmp, message, echo_request, rx, got_reply}

checksum-message :
    (kind code : ℕ) (rest : Bytes)
    → kind < 256
    → code < 256
    → IsBytes rest
    → length rest < 2 ^ 13
    → checksum (message kind code rest) ≡ 0
unfolding message
checksum-message kind code rest hk hc bytes short =
    checksum_verifies (kind ∷ code ∷ []) rest tt (ground arith) (omega arith)

module _ (id seq : ℕ) (small_id : id < 2 ^ 16) (small_seq : seq < 2 ^ 16) where
  abbrev fields : Bytes
  fields = put16 id (put16 seq [])

  summed : (kind : ℕ) → kind < 256 → checksum (message kind 0 fields) ≡ 0
  summed kind h = checksum-message kind 0 fields h (omega arith) (ground arith) (omega arith)

  rx-echo_request :
      (src_ip : ℕ) (s : Icmp)
      → rx src_ip (echo_request id seq) s ≡ (s, (src_ip, message 0 0 fields) ∷ [])
  unfolding rx echo_request message
  rx-echo_request src_ip s = rw (summed 8 (omega arith)) refl

  rx-echo_reply :
      (src_ip : ℕ) (s : Icmp)
      → rx src_ip (message 0 0 fields) s
        ≡ (record { reply_received = 1; reply_id = id; reply_seq = seq; reply_src_ip = src_ip }, [])
  unfolding rx message
  rx-echo_reply src_ip s =
      rw (summed 0 (omega arith), two_bytes id small_id, two_bytes seq small_seq) refl

  -- For an identifier and a sequence number below 2^16, the request that send_echo_request builds
  -- is answered by a peer that runs this code with exactly one message to the sender, and when
  -- that message arrives got_reply reports the identifier, the number and the address of the peer.
  pub ping_replies :
      (here there : ℕ) (ours theirs : Icmp)
      → (reply : Bytes) × (rx here (echo_request id seq) theirs ≡ (theirs, (here, reply) ∷ []))
        × ((got_reply (rx there reply ours).0).0 ≡ some (id, seq, there))
  unfolding got_reply
  ping_replies here there ours theirs =
      (message 0 0 fields, rx-echo_request here theirs, rw (rx-echo_reply there ours) refl)
