-- ===== src/Net.antt =====
-- The network stack of src/net.rs and the protocols above it. Packets are lists of bytes; a 16- or
-- 32-bit field that the code stores through htons or htonl is two or four bytes, the high one first.
pub mod Arp
pub mod Cache
pub mod Datagrams
pub mod Delivery
pub mod Ethernet
pub mod Resolution
pub mod Checksum
pub mod Icmp
pub mod Ipv4
pub mod Ping
pub mod Ports
pub mod Udp
pub mod Tcp
pub mod Tests
use sysrust.Common.{
  ℕ, zero, suc, ◌+◌, ◌-◌, ◌*◌, ◌/◌, ◌%◌, ◌^◌, ◌<◌, List, [], ◌∷◌, ◌++◌, Bool, ◌==◌, ltb,
  if◌then◌else◌, length, ◌≡◌, refl, ap, arith,
}

abbrev pub Bytes : Type 0
Bytes = List ℕ

abbrev pub net_ip_addr : ℕ
net_ip_addr = 0x0a00_020f

abbrev pub net_gateway : ℕ
net_gateway = 0x0a00_0202

-- The mask 255.255.255.0 keeps the upper 24 bits.
abbrev pub subnet_of : ℕ → ℕ
subnet_of ip = ip / 256

-- Every entry is a byte.
abbrev pub IsBytes : Bytes → Type 0
IsBytes [] = Unit {0}
IsBytes (b ∷ bs) = (b < 256) × IsBytes bs

-- *data.add(i); the callers compare the length first.
abbrev pub byte_at : Bytes → ℕ → ℕ
byte_at [] i = 0
byte_at (b ∷ bs) zero = b
byte_at (b ∷ bs) (suc i) = byte_at bs i

abbrev pub take : ℕ → Bytes → Bytes
take zero bs = []
take (suc n) [] = []
take (suc n) (b ∷ bs) = b ∷ take n bs

abbrev pub drop : ℕ → Bytes → Bytes
drop zero bs = bs
drop (suc n) [] = []
drop (suc n) (b ∷ bs) = drop n bs

-- htons before a store, and ntohs after a load.
abbrev pub put16 : ℕ → Bytes → Bytes
put16 v rest = v / 256 % 256 ∷ v % 256 ∷ rest

abbrev pub put32 : ℕ → Bytes → Bytes
put32 v rest = v / 2 ^ 24 % 256 ∷ v / 2 ^ 16 % 256 ∷ v / 256 % 256 ∷ v % 256 ∷ rest

abbrev pub get16 : Bytes → ℕ → ℕ
get16 bs i = byte_at bs i * 256 + byte_at bs (i + 1)

abbrev pub get32 : Bytes → ℕ → ℕ
get32 bs i =
    byte_at bs i * 2 ^ 24
    + byte_at bs (i + 1) * 2 ^ 16
    + byte_at bs (i + 2) * 256
    + byte_at bs (i + 3)

-- Six bytes from offset `i`: a MAC address.
abbrev pub mac_at : Bytes → ℕ → Bytes
mac_at bs i = take 6 (drop i bs)

-- The frame that `send_ethernet` hands to the card; a payload over the limit sends nothing.
abbrev pub send_ethernet : (our_mac dst_mac : Bytes) (ethertype : ℕ) (payload : Bytes) → List Bytes
send_ethernet our_mac dst_mac ethertype payload =
    if ltb 1518 (length payload + 14)
    then []
    else (dst_mac ++ our_mac ++ put16 ethertype payload) ∷ []

-- Four bytes and two bytes in network order are read back as they were written.
pub four_bytes :
    (n : ℕ)
    → n < 2 ^ 32
    → n / 2 ^ 24 % 256 * 2 ^ 24 + n / 2 ^ 16 % 256 * 2 ^ 16 + n / 256 % 256 * 256 + n % 256 ≡ n
four_bytes n h = omega arith

pub two_bytes : (n : ℕ) → n < 2 ^ 16 → n / 256 % 256 * 256 + n % 256 ≡ n
two_bytes n h = omega arith

pub take-length : (bs : Bytes) → take (length bs) bs ≡ bs
take-length [] = refl
take-length (b ∷ bs) = ap (λ x. b ∷ x) (take-length bs)

pub take-nil : (n : ℕ) → take n [] ≡ []
take-nil zero = refl
take-nil (suc n) = refl
