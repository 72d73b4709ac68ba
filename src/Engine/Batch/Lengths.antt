-- ===== src/Engine/Batch/Lengths.antt =====
-- batch.go, `packetLen`.
use go_pass.Base.{
  ℕ, ◌+◌, ◌/◌, ◌≤◌, ◌≡◌, ◌≢◌, inl, inr, arith, ◌<◌, ◌==◌, ◌↔◌, Bool-cases, Option-cases, length,
  length-append, get_elem?-append, get_elem?, get_elem?-lt, be16, be16-lt, Bytes, some, ◌++◌,
}
use go_pass.Engine.Batch.{ok, panic, packet_len}

-- What the header says: the total length of IPv4, the payload length of IPv6 and its fixed header.
pub data IsPacketLen (pkt : Bytes) (n : ℕ) : Type 0 where
  ipv4 :
      (first : ℕ)
      → get_elem? pkt 0 ≡ some first
      → first / 16 ≡ 4
      → be16 pkt 2 ≡ some n
      → 20 ≤ n
      → IsPacketLen pkt n
  ipv6 :
      (first payload : ℕ)
      → get_elem? pkt 0 ≡ some first
      → first / 16 ≡ 6
      → be16 pkt 4 ≡ some payload
      → n ≡ 40 + payload
      → IsPacketLen pkt n

-- No buffer makes `packetLen` read out of range.
pub packet_len-ne-panic : (pkt : Bytes) → packet_len pkt ≢ panic
unfolding packet_len
packet_len-ne-panic pkt = ground (arith, get_elem?-lt pkt 0, be16-lt pkt 2, be16-lt pkt 4)

IsPacketLen-of_ok :
    (pkt : Bytes) (n : ℕ) → packet_len pkt ≡ ok n → IsPacketLen pkt n × (n ≤ length pkt)
unfolding packet_len
IsPacketLen-of_ok pkt n h =
    let positive : 0 < length pkt = ground arith in
    let (first, e) = get_elem?-lt pkt 0 positive in
    elim (Bool-cases (first / 16 == 4)) [
      | inl v4 ↦
          let long : 3 < length pkt = ground arith in
          let (total, f) = be16-lt pkt 2 long in
          (ipv4 first e (ground arith) (ground arith) (ground arith), ground arith)
      | inr other ↦
          let v6 : first / 16 ≡ 6 = ground arith in
          let long : 5 < length pkt = ground arith in
          let (payload, f) = be16-lt pkt 4 long in
          (ipv6 first payload e v6 f (ground arith), ground arith)
    ]

ok_of_IsPacketLen :
    (pkt : Bytes) (n : ℕ) → IsPacketLen pkt n → n ≤ length pkt → packet_len pkt ≡ ok n
unfolding packet_len
ok_of_IsPacketLen pkt n (ipv4 first e v f low) h = ground arith
ok_of_IsPacketLen pkt n (ipv6 first payload e v f total) h = ground arith

-- `packetLen` succeeds with `n` exactly when the header says `n` and the buffer holds `n` bytes.
pub packet_len_iff :
    (pkt : Bytes) (n : ℕ) → (packet_len pkt ≡ ok n) ↔ (IsPacketLen pkt n × (n ≤ length pkt))
packet_len_iff pkt n = (IsPacketLen-of_ok pkt n, λ h. ok_of_IsPacketLen pkt n h.0 h.1)

pub packet_len-bounds : (pkt : Bytes) (n : ℕ) → packet_len pkt ≡ ok n → (20 ≤ n) × (n ≤ length pkt)
unfolding packet_len
packet_len-bounds pkt n h = ground arith

be16-append : (p rest : Bytes) (i v : ℕ) → be16 p i ≡ some v → be16 (p ++ rest) i ≡ some v
unfolding be16
be16-append p rest i v e = elim (Option-cases (get_elem? p i)) [
  | inl f ↦ ground arith
  | inr (hi, f) ↦ elim (Option-cases (get_elem? p (i + 1))) [
    | inl g ↦ ground arith
    | inr (lo, g) ↦
        ground (arith, get_elem?-append p rest i hi f, get_elem?-append p rest (i + 1) lo g)
  ]
]

-- A packet as long as its header says is cut off at its own length, whatever follows it in the buffer.
pub packet_len-append :
    (pkt rest : Bytes)
    → packet_len pkt ≡ ok (length pkt)
    → packet_len (pkt ++ rest) ≡ ok (length pkt)
packet_len-append pkt rest h =
    let (header, _) = IsPacketLen-of_ok pkt (length pkt) h in
    ok_of_IsPacketLen (pkt ++ rest) (length pkt) (lift header)
      (omega (arith, length-append pkt rest))
  where
    lift : IsPacketLen pkt (length pkt) → IsPacketLen (pkt ++ rest) (length pkt)
    lift (ipv4 first e v f low) =
        ipv4 first (get_elem?-append pkt rest 0 first e) v (be16-append pkt rest 2 _ f) low
    lift (ipv6 first payload e v f total) =
        ipv6 first payload (get_elem?-append pkt rest 0 first e) v
          (be16-append pkt rest 4 payload f) total
