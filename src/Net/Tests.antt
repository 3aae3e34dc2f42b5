-- ===== src/Net/Tests.antt =====
-- The models of src/net.rs, src/arp.rs, src/ipv4.rs, src/udp.rs and src/icmp.rs on concrete packets.
use sysrust.Common.{
  none, ℕ, zero, suc, ◌+◌, ◌^◌, ◌%◌, ◌/◌, ◌≡◌, List, [], ◌∷◌, ◌++◌, some, arith, refl, inl,
  find_from,
}
use sysrust.Net.{Bytes, drop, net_ip_addr, send_ethernet}
use sysrust.Net.Ethernet
use sysrust.Net.Icmp
use sysrust.Net.Ipv4
use sysrust.Net.Udp
use sysrust.Net.Datagrams.{answered, rx-datagram}
use sysrust.Net.Ethernet.{rx-send_ethernet}
use sysrust.Net.Ping.{ping_replies}
use sysrust.Net.Ports.{BoundTo, bind-BoundTo}
use sysrust.Net.Arp.{
  init, arp_table_lookup, arp_table_update, arp_packet, arp_send_reply, rx, resolve,
}
use sysrust.Net.Cache.{arp_table_update-lookup}
use sysrust.Net.Checksum.{checksum, checksum_verifies}
use sysrust.Net.Delivery.{rx-header}
use sysrust.Net.Ipv4.{Ip, header, Delivery}
use sysrust.Net.Resolution.{Mac, bytes_of, rx-arp_packet, resolve-Resolved, Resolved}

abbrev ours : Mac
ours = record { b0 = 0x52; b1 = 0x54; b2 = 0; b3 = 0x12; b4 = 0x34; b5 = 0x56 }

abbrev gateway : Mac
gateway = record { b0 = 0x52; b1 = 0x55; b2 = 10; b3 = 0; b4 = 2; b5 = 2 }

abbrev gateway_ip : ℕ
gateway_ip = 0x0a00_0202

abbrev hello : Bytes
hello = 104 ∷ 105 ∷ []

-- The request of the gateway for our address.
abbrev asked : Bytes
asked = arp_packet 1 (bytes_of gateway) gateway_ip (0 ∷ 0 ∷ 0 ∷ 0 ∷ 0 ∷ 0 ∷ []) net_ip_addr

abbrev reply : Bytes
reply = arp_packet 2 (bytes_of gateway) gateway_ip (bytes_of ours) net_ip_addr

-- One packet arrives in the second round of the first attempt.
abbrev arriving : ℕ → List (List Bytes)
arriving i = [] ∷ (reply ∷ []) ∷ [] ∷ []

abbrev zeros : ℕ → Bytes
zeros zero = []
zeros (suc n) = 0 ∷ zeros n

abbrev fresh : Ip
fresh = record { pkt_buf = zeros 1500; id_counter = 65535; arp_table = init }

sum_of_two : checksum (1 ∷ 2 ∷ 3 ∷ []) ≡ 65019
unfolding checksum
sum_of_two = refl

learnt : (resolve (bytes_of ours) gateway_ip arriving init).0 ≡ some (bytes_of gateway)
unfolding resolve arp_packet find_from
learnt = refl

checksum_verifies_example :
    checksum (
      0x45
      ∷ 0
      ∷ checksum (0x45 ∷ 0 ∷ 0 ∷ 0 ∷ 10 ∷ 255 ∷ []) % 256
      ∷ checksum (0x45 ∷ 0 ∷ 0 ∷ 0 ∷ 10 ∷ 255 ∷ []) / 256
      ∷ 10
      ∷ 255
      ∷ [])
    ≡ 0
checksum_verifies_example =
    checksum_verifies (0x45 ∷ 0 ∷ []) (10 ∷ 255 ∷ []) tt (ground arith) (omega arith)

arp_table_update-lookup_example :
    arp_table_lookup gateway_ip (arp_table_update gateway_ip (bytes_of gateway) init)
    ≡ some (bytes_of gateway)
unfolding find_from
arp_table_update-lookup_example =
    arp_table_update-lookup gateway_ip gateway_ip (bytes_of gateway) init

rx-arp_packet_example :
    rx (bytes_of ours) (arp_packet 1 (bytes_of gateway) gateway_ip (bytes_of ours) net_ip_addr) init
    ≡ (
      arp_table_update gateway_ip (bytes_of gateway) init,
      arp_send_reply (bytes_of ours) (bytes_of gateway) gateway_ip,
    )
rx-arp_packet_example =
    rx-arp_packet (bytes_of ours) gateway ours 1 gateway_ip net_ip_addr init (omega arith)
      (omega arith) (omega arith)

resolve-Resolved_example : Resolved gateway_ip 3 (resolve (bytes_of ours) gateway_ip arriving init)
resolve-Resolved_example = resolve-Resolved ours gateway_ip arriving init

rx-header_example :
    Ipv4.rx (header net_ip_addr 17 2 7 ++ hello) ≡ some (Delivery.udp_rx net_ip_addr hello)
rx-header_example = rx-header net_ip_addr 17 7 hello (omega arith) (omega arith) (inl refl)

-- A packet for another host is sent meanwhile.
abbrev another : Bytes × ℕ → Bytes × ℕ
another (pkt_buf, id_counter) =
    (header 0x0a00_0202 1 0 id_counter ++ drop 20 pkt_buf, (id_counter + 1) % 2 ^ 16)

abbrev resolver : Udp.Udp
resolver = record { bind_table = λ i. record { port = 0; handler = none }; bind_count = 0 }

abbrev quiet : Icmp.Icmp
quiet = record { reply_received = 0; reply_id = 0; reply_seq = 0; reply_src_ip = 0 }

bind-BoundTo_example : BoundTo 53 9 resolver 53 (Udp.bind 53 9 resolver)
bind-BoundTo_example = bind-BoundTo 53 9 resolver 53

rx-datagram_example :
    Udp.rx gateway_ip (Udp.datagram 53 1024 hello) resolver
    ≡ answered gateway_ip 53 hello (Udp.handler_of 1024 resolver)
rx-datagram_example =
    rx-datagram gateway_ip 53 1024 hello resolver (omega arith) (omega arith) (omega arith)

ping_replies_example :
    (answer : Bytes) × (Icmp.rx net_ip_addr (Icmp.echo_request 77 1) quiet
      ≡ (quiet, (net_ip_addr, answer) ∷ []))
    × ((Icmp.got_reply (Icmp.rx gateway_ip answer quiet).0).0 ≡ some (77, 1, gateway_ip))
ping_replies_example =
    ping_replies 77 1 (omega arith) (omega arith) net_ip_addr gateway_ip quiet quiet

rx-send_ethernet_example :
    (frame : Bytes) × (send_ethernet (bytes_of ours) (bytes_of gateway) 0x0800 hello ≡ frame ∷ [])
    × (Ethernet.rx frame ≡ some (Ethernet.ipv4_rx hello))
rx-send_ethernet_example = rx-send_ethernet ours gateway 0x0800 hello (omega arith) (omega arith)
