-- ===== src/Net/Icmp.antt =====
-- Echo requests and replies of src/icmp.rs. A packet sent is the address and the bytes handed to
-- ipv4::send.
use sysrust.Common.{
  ℕ, ◌/◌, ◌%◌, List, [], ◌∷◌, ◌&&◌, not, Option, some, none, ◌==◌, ltb, if◌then◌else◌, length,
}
use sysrust.Net.{Bytes, byte_at, drop, put16, get16}
use sysrust.Net.Checksum.{checksum}

-- REPLY_RECEIVED, REPLY_ID, REPLY_SEQ and REPLY_SRC_IP.
pub record Icmp : Type 0 where
  pub reply_received : ℕ
  pub reply_id : ℕ
  pub reply_seq : ℕ
  pub reply_src_ip : ℕ

-- The bytes of a message with this type and code, its checksum filled in, low byte first.
unfoldable pub message : (kind code : ℕ) (rest : Bytes) → Bytes
unfolding checksum
message kind code rest =
    let sum = checksum (kind ∷ code ∷ 0 ∷ 0 ∷ rest) in kind ∷ code ∷ sum % 256 ∷ sum / 256 ∷ rest

-- The request's code and data are kept.
abbrev pub echo_reply : Bytes → Bytes
echo_reply packet = message 0 (byte_at packet 1) (drop 4 packet)

unfoldable pub rx : (src_ip : ℕ) → Bytes → Icmp → Icmp × List (ℕ × Bytes)
unfolding message
rx src_ip packet s =
    if ltb (length packet) 8
    then (s, [])
    else if not (checksum packet == 0)
    then (s, [])
    else if (byte_at packet 0 == 8) && (byte_at packet 1 == 0)
    then (if ltb 1500 (length packet) then (s, []) else (s, (src_ip, echo_reply packet) ∷ []))
    else if (byte_at packet 0 == 0) && (byte_at packet 1 == 0)
    then (
      record {
        reply_received = 1;
        reply_id = get16 packet 4;
        reply_seq = get16 packet 6;
        reply_src_ip = src_ip;
      },
      [],
    )
    else (s, [])

unfoldable pub echo_request : (id seq : ℕ) → Bytes
unfolding message
echo_request id seq = message 8 0 (put16 id (put16 seq []))

unfoldable pub send_echo_request : (dst_ip id seq : ℕ) → List (ℕ × Bytes)
unfolding echo_request
send_echo_request dst_ip id seq = (dst_ip, echo_request id seq) ∷ []

-- The three outputs where a reply is pending, and the flag cleared.
unfoldable pub got_reply : Icmp → Option (ℕ × ℕ × ℕ) × Icmp
got_reply s =
    if s.reply_received == 0
    then (none, s)
    else (some (s.reply_id, s.reply_seq, s.reply_src_ip), record s { reply_received = 0 })
