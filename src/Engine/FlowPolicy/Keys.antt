-- ===== src/Engine/FlowPolicy/Keys.antt =====
-- flowpolicy.go: what the TCP flags and the flow keys tell apart.
use go_pass.Base.{
  ℕ, ◌/◌, ◌%◌, ◌<◌, ◌≡◌, refl, ap, Bool, true, false, not, ◌&&◌, arith, ◌==◌, holds_to, holds_to-at,
  Bytes, get_elem?, none, some,
}
use go_pass.Engine.FlowPolicy.{FlowKey, is_connection_start, array_v4, flow_key_v4}

abbrev pub same_bool : Bool → Bool → Bool
same_bool true b = b
same_bool false b = not b

pub same_bool→eq : (a b : Bool) → same_bool a b ≡ true → a ≡ b
same_bool→eq a b h = ground arith

-- Bit 1 is SYN and bit 4 is ACK.
abbrev pub syn_without_ack : ℕ → Bool
syn_without_ack flags = flags / 2 % 2 == 1 && flags / 16 % 2 == 0

start_table : holds_to (λ f. same_bool (is_connection_start f) (syn_without_ack f)) 256 ≡ true
unfolding holds_to is_connection_start
start_table = refl

-- On a byte of flags, a connection starts exactly where SYN is set and ACK is not.
pub is_connection_start_lem :
    (flags : ℕ) → flags < 256 → is_connection_start flags ≡ syn_without_ack flags
is_connection_start_lem flags h = same_bool→eq _ _ (holds_to-at _ flags 256 h start_table)

abbrev byte_of : ℕ → Bytes → ℕ
byte_of i bs = elim (get_elem? bs i) [ none ↦ 0 | some b ↦ b ]

array_v4-injective : (v w : ℕ) → v < 4294967296 → w < 4294967296 → array_v4 v ≡ array_v4 w → v ≡ w
array_v4-injective v w hv hw e =
    omega (arith, ap (byte_of 0) e, ap (byte_of 1) e, ap (byte_of 2) e, ap (byte_of 3) e)

-- For addresses of 32 bits, the keys of two IPv4 flows are equal only if the flows have the same
-- addresses and ports.
pub flow_key_v4-injective :
    (s d p q s' d' p' q' : ℕ)
    → s < 4294967296
    → d < 4294967296
    → s' < 4294967296
    → d' < 4294967296
    → flow_key_v4 s d p q ≡ flow_key_v4 s' d' p' q'
    → (s ≡ s') × (d ≡ d') × (p ≡ p') × (q ≡ q')
unfolding flow_key_v4
flow_key_v4-injective s d p q s' d' p' q' hs hd hs' hd' e = (
  array_v4-injective s s' hs hs' (ap (λ (k : FlowKey). k.src_ip) e),
  array_v4-injective d d' hd hd' (ap (λ (k : FlowKey). k.dst_ip) e),
  ap (λ (k : FlowKey). k.src_port) e,
  ap (λ (k : FlowKey). k.dst_port) e,
)
