-- ===== src/Engine/Addr.antt =====
-- internal/engine/windivert.go: the address scopes `isPrivateOrLocal4` and `isPrivateOrLocalV6`,
-- with what they use of package net. An IPv4 address is its four bytes; an IPv6 address is the
-- list of its 16 bytes. `net.IP.String` of an IPv4 address is dotted decimal in both of its forms.
pub mod Blocks
pub mod Examples
use go_pass.Base.{
  ℕ, zero, suc, ◌+◌, Bool, true, false, ◌&&◌, ◌||◌, not, List, [], ◌∷◌, ◌++◌, leb, ◌==◌,
  if◌then◌else◌, bit_and, length, get_elem?, Option, none, some, Bytes, Text, codes, itoa,
  ℕ_discrete,
}

pub record Ipv4 : Type 0 where
  pub b0 : ℕ
  pub b1 : ℕ
  pub b2 : ℕ
  pub b3 : ℕ

unfoldable pub Ipv4-discrete : Discrete Ipv4
Ipv4-discrete = hlevel ℕ_discrete

abbrev pub loopback_v4 : Ipv4
loopback_v4 = record { b0 = 127; b1 = 0; b2 = 0; b3 = 1 }

unfoldable pub ip_string : Ipv4 → Text
ip_string a = itoa a.b0 ++ (b'.' ∷ (itoa a.b1 ++ (b'.' ∷ (itoa a.b2 ++ (b'.' ∷ itoa a.b3)))))

abbrev pub loopback_text : Text
loopback_text = codes "127.0.0.1"

-- `net.IP.IsLoopback` on an IPv4 address: 127.0.0.0/8.
abbrev pub is_loopback4 : Ipv4 → Bool
is_loopback4 a = a.b0 == 127

unfoldable pub is_private_or_local4 : ℕ → ℕ → ℕ → ℕ → Bool
is_private_or_local4 a b c d =
    if a == 0 || a == 10 || a == 127
    then true
    else if a == 169 && b == 254
    then true
    else if a == 172 && leb 16 b && leb b 31
    then true
    else if a == 192 && b == 168
    then true
    else if a == 100 && leb 64 b && leb b 127
    then true
    else if a == 192 && b == 0 && c == 0
    then true
    else if leb 224 a
    then true
    else false

-- A read of a byte array of fixed size, in range wherever it is used.
abbrev pub byte_at : Bytes → ℕ → ℕ
byte_at ip i = elim (get_elem? ip i) [ none ↦ 0 | some b ↦ b ]

all_zero : Bytes → Bool
all_zero [] = true
all_zero (b ∷ bs) = b == 0 && all_zero bs

zero_prefix : ℕ → Bytes → Bool
zero_prefix zero ip = true
zero_prefix (suc n) [] = true
zero_prefix (suc n) (b ∷ bs) = b == 0 && zero_prefix n bs

from_bytes : Bytes → ℕ → Ipv4
from_bytes ip i = record {
  b0 = byte_at ip i;
  b1 = byte_at ip (i + 1);
  b2 = byte_at ip (i + 2);
  b3 = byte_at ip (i + 3);
}

-- `net.IP.To4`: a slice of four bytes, or one of 16 that maps an IPv4 address.
unfoldable pub to4 : Bytes → Option Ipv4
unfolding zero_prefix from_bytes
to4 ip =
    if length ip == 4
    then some (from_bytes ip 0)
    else if length ip == 16 && zero_prefix 10 ip && byte_at ip 10 == 0xff && byte_at ip 11 == 0xff
    then some (from_bytes ip 12)
    else none

-- net's tests on an address of 16 bytes that maps no IPv4 address.
unfoldable pub is_loopback6 : Bytes → Bool
unfolding zero_prefix
is_loopback6 ip = zero_prefix 15 ip && byte_at ip 15 == 1

is_link_local_unicast6 : Bytes → Bool
is_link_local_unicast6 ip = byte_at ip 0 == 0xfe && bit_and (byte_at ip 1) 0xc0 == 0x80

is_link_local_multicast6 : Bytes → Bool
is_link_local_multicast6 ip = byte_at ip 0 == 0xff && bit_and (byte_at ip 1) 0x0f == 0x02

is_interface_local_multicast6 : Bytes → Bool
is_interface_local_multicast6 ip = byte_at ip 0 == 0xff && bit_and (byte_at ip 1) 0x0f == 0x01

is_multicast6 : Bytes → Bool
is_multicast6 ip = byte_at ip 0 == 0xff

is_private_or_local6 : Bytes → Bool
unfolding is_loopback6 all_zero is_link_local_unicast6 is_link_local_multicast6
    is_interface_local_multicast6 is_multicast6
is_private_or_local6 ip =
    if not (length ip == 16)
    then true
    else if is_loopback6 ip
        || all_zero ip
        || is_link_local_unicast6 ip
        || is_link_local_multicast6 ip
        || is_interface_local_multicast6 ip
        || is_multicast6 ip
    then true
    else if bit_and (byte_at ip 0) 0xfe == 0xfc
    then true
    else if byte_at ip 0 == 0xfe && bit_and (byte_at ip 1) 0xc0 == 0xc0
    then true
    else false

unfoldable pub is_private_or_local_v6 : Bytes → Bool
unfolding to4 is_private_or_local6
is_private_or_local_v6 ip = elim (to4 ip) [
  | some v4 ↦ is_private_or_local4 v4.b0 v4.b1 v4.b2 v4.b3
  | none ↦ is_private_or_local6 ip
]
