-- ===== src/Engine/Sni/Total.antt =====
-- sni.go, `ExtractSNI` on every input.
use go_pass.Base.{
  ℕ, suc, ◌+◌, ◌*◌, ◌≤◌, not, ◌||◌, ltb, ◌==◌, Bytes, ◌>>=◌, be16-lt, get_elem?-lt, length, take,
  drop, inl, inr, Bool-cases, arith,
}
use go_pass.Engine.Sni.{
  not_handshake, incomplete_record, not_client_hello, incomplete_hello, hello_too_short,
  bad_session_id, missing_ciphers, bad_ciphers, missing_compression, bad_compression,
  missing_extensions, bad_extensions, slice, after_compression, after_ciphers, after_session_id,
  after_random, client_hello, extract_sni,
}
use go_pass.Engine.Sni.Within.{
  EndsIn, fails, EndsIn-if, EndsIn-whole, IsInside-take-drop, slice-le, extension_loop-EndsIn,
}

after_compression-EndsIn : (rest : Bytes) (offset : ℕ) → EndsIn rest (after_compression rest offset)
unfolding after_compression
after_compression-EndsIn rest offset = elim (Bool-cases (ltb (length rest) (offset + 2))) [
  | inl short ↦ rw short (fails rest missing_extensions)
  | inr long ↦
      let (n, f) = be16-lt rest offset (ground arith) in
      rw (long, f)
        (EndsIn-if rest (ltb (length rest) (offset + 2 + n)) _ _ (fails rest bad_extensions)
          λ within. rw (slice-le rest (offset + 2) n (ground arith)) (
            extension_loop-EndsIn rest (suc (length (take n (drop (offset + 2) rest))))
              (take n (drop (offset + 2) rest)) (omega arith)
              (IsInside-take-drop (offset + 2) n rest)))
]

after_ciphers-EndsIn : (rest : Bytes) (offset : ℕ) → EndsIn rest (after_ciphers rest offset)
unfolding after_ciphers
after_ciphers-EndsIn rest offset = elim (Bool-cases (ltb offset (length rest))) [
  | inr short ↦ rw short (fails rest missing_compression)
  | inl long ↦
      let (n, f) = get_elem?-lt rest offset (ground arith) in
      rw (long, f)
        (EndsIn-if rest (ltb (length rest) (offset + 1 + n)) _ _ (fails rest bad_compression)
          λ within. after_compression-EndsIn rest (offset + 1 + n))
]

after_session_id-EndsIn : (rest : Bytes) (offset : ℕ) → EndsIn rest (after_session_id rest offset)
unfolding after_session_id
after_session_id-EndsIn rest offset = elim (Bool-cases (ltb (length rest) (offset + 2))) [
  | inl short ↦ rw short (fails rest missing_ciphers)
  | inr long ↦
      let (n, f) = be16-lt rest offset (ground arith) in
      rw (long, f)
        (EndsIn-if rest (ltb (length rest) (offset + 2 + n)) _ _ (fails rest bad_ciphers)
          λ within. after_ciphers-EndsIn rest (offset + 2 + n))
]

after_random-EndsIn : (rest : Bytes) (offset : ℕ) → EndsIn rest (after_random rest offset)
unfolding after_random
after_random-EndsIn rest offset = elim (Bool-cases (ltb offset (length rest))) [
  | inr short ↦ rw short (fails rest hello_too_short)
  | inl long ↦
      let (n, f) = get_elem?-lt rest offset (ground arith) in
      rw (long, f)
        (EndsIn-if rest (ltb (length rest) (offset + 1 + n)) _ _ (fails rest bad_session_id)
          λ within. after_session_id-EndsIn rest (offset + 1 + n))
]

client_hello-EndsIn : (rest : Bytes) → EndsIn rest (client_hello rest)
unfolding client_hello
client_hello-EndsIn rest = elim (Bool-cases (ltb (length rest) 4)) [
  | inl short ↦ rw short (fails rest not_client_hello)
  | inr long ↦
      let (kind, e) = get_elem?-lt rest 0 (ground arith) in
      let (hi, f) = get_elem?-lt rest 1 (ground arith) in
      let (mid, g) = get_elem?-lt rest 2 (ground arith) in
      let (lo, i) = get_elem?-lt rest 3 (ground arith) in
      rw (long, e, f, g, i)
        (EndsIn-if rest (not (kind == 1)) _ _ (fails rest not_client_hello) λ hello.
          EndsIn-if rest
            (ltb (65536 * hi + 256 * mid + lo) 34
              || ltb (length rest) (4 + (65536 * hi + 256 * mid + lo)))
            _ _ (fails rest incomplete_hello) λ complete. after_random-EndsIn rest 38)
]

record_body-EndsIn :
    (input : Bytes) (n : ℕ)
    → 5 + n ≤ length input
    → EndsIn input (slice input 5 n >>= λ rest. client_hello rest)
record_body-EndsIn input n h = rw (slice-le input 5 n h) (
    EndsIn-whole (take n (drop 5 input)) input _ (IsInside-take-drop 5 n input)
      (client_hello-EndsIn (take n (drop 5 input))))

-- On every input `ExtractSNI` ends, with no access out of range and no loop out of fuel; a host that
-- it returns is not empty and stands, byte for byte, in the input.
pub extract_sni-EndsIn : (input : Bytes) → EndsIn input (extract_sni input)
unfolding extract_sni
extract_sni-EndsIn input = elim (Bool-cases (ltb (length input) 5)) [
  | inl short ↦ rw short (fails input not_handshake)
  | inr long ↦
      let (kind, f) = get_elem?-lt input 0 (ground arith) in
      let (n, g) = be16-lt input 3 (ground arith) in
      rw (long, f, g)
        (EndsIn-if input (not (kind == 22)) _ _ (fails input not_handshake) λ handshake.
          EndsIn-if input (n == 0 || ltb (length input) (5 + n)) _ _ (fails input incomplete_record)
            λ complete. record_body-EndsIn input n (ground arith))
]
