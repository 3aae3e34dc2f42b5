-- ===== src/Net/Tcp/Segments.antt =====
-- The segments that src/tcp.rs sends carry a checksum that the receiver accepts.
use sysrust.Common.{ℕ, ◌/◌, ◌%◌, ◌≡◌, ◌<◌, ◌≤◌, ◌∷◌, ◌++◌, false, ltb, arith, refl, ap, ◌∙◌, length}
use sysrust.Net.{Bytes, IsBytes, net_ip_addr}
use sysrust.Net.Checksum.{checksum, checksum_verifies}
use sysrust.Net.Tcp.{TcpConn, tcp_checksum, segment, segment_front, pseudo_header}

tcp_checksum_short :
    (src_ip dst_ip : ℕ) (g : Bytes)
    → length g ≤ 1480
    → tcp_checksum src_ip dst_ip g ≡ checksum (pseudo_header src_ip dst_ip (length g) ++ g)
unfolding tcp_checksum
tcp_checksum_short src_ip dst_ip g short =
    let test : ltb 1480 (length g) ≡ false = ground arith in rw (tcp_checksum, test) refl

-- For flags below 256 and at most 1460 bytes of payload, the segment that tcp_send_segment builds
-- has the TCP checksum 0 under the pseudo header from our address to the peer.
pub tcp_checksum-segment :
    (c : TcpConn) (flags : ℕ) (payload : Bytes)
    → flags < 256
    → IsBytes payload
    → length payload ≤ 1460
    → tcp_checksum net_ip_addr c.remote_ip (segment c flags payload) ≡ 0
unfolding segment
tcp_checksum-segment c flags payload small bytes short =
    let zeroed = segment_front c flags ++ (0 ∷ 0 ∷ 0 ∷ 0 ∷ payload) in
    let pseudo = pseudo_header net_ip_addr c.remote_ip (length zeroed) in
    let sum = tcp_checksum_short net_ip_addr c.remote_ip zeroed (omega arith) in
    let filled : ℕ → Bytes = λ x. segment_front c flags ++ (x % 256 ∷ x / 256 ∷ 0 ∷ 0 ∷ payload) in
    let stored = tcp_checksum net_ip_addr c.remote_ip zeroed in
    tcp_checksum_short net_ip_addr c.remote_ip (filled stored) (omega arith)
    ∙ ap (λ x. checksum (pseudo ++ filled x)) sum
    ∙ checksum_verifies (pseudo ++ segment_front c flags) (0 ∷ 0 ∷ payload) tt (ground arith)
        (omega arith)
