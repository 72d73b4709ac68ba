-- ===== src/Engine/Relay/Sized.antt =====
-- tproxy.go, `relay`: the size of the buffer, and what the pool holds.
use go_pass.Base.{
  ℕ, ◌≤◌, ◌≡◌, refl, Bool, true, ◌&&◌, List, Option, none, some, inl, inr, arith, Bool-cases, ℤ,
  pos, negsuc, ltb, leb, ◌==◌, All,
}
use go_pass.Config.{clamp_buffer_size, min_buffer_size, max_buffer_size}
use go_pass.Engine.Relay.{
  Buffer, default_relay_buffer_size, pooled, get_relay_buffer, put_relay_buffer, CopyEnd,
  is_complete, RelayResult, relay,
}

abbrev pub IsWhole : Buffer → Type 0
IsWhole b = (b.len ≡ default_relay_buffer_size) × (b.cap ≡ default_relay_buffer_size)

-- What the pool gives out is what was put there.
abbrev pub IsTaken : Option Buffer → Type 0
IsTaken none = Unit {0}
IsTaken (some b) = IsWhole b

-- The size that a configured size stands for.
record Clamped (size : ℤ) : Type 0 where
  bytes : ℕ
  is : clamp_buffer_size size ≡ pos bytes
  low : min_buffer_size ≤ bytes
  high : bytes ≤ max_buffer_size

clamp_buffer_size-Clamped : (size : ℤ) → Clamped size
unfolding clamp_buffer_size
clamp_buffer_size-Clamped (negsuc n) = record {
  bytes = min_buffer_size;
  is = refl;
  low = omega arith;
  high = omega arith;
}
clamp_buffer_size-Clamped (pos n) = elim (Bool-cases (ltb n min_buffer_size)) [
  | inl small ↦ record {
    bytes = min_buffer_size;
    is = ground arith;
    low = omega arith;
    high = omega arith;
  }
  | inr enough ↦ elim (Bool-cases (ltb max_buffer_size n)) [
    | inl big ↦ record {
      bytes = max_buffer_size;
      is = ground arith;
      low = omega arith;
      high = omega arith;
    }
    | inr fits ↦ record { bytes = n; is = ground arith; low = ground arith; high = ground arith }
  ]
]

-- A buffer with this many bytes that came from the pool whole, or is too large for it.
record Gets (bytes : ℕ) (o : Option Buffer) : Type 0 where
  buf : Buffer
  result : o ≡ some buf
  len_is : buf.len ≡ bytes
  roomy : default_relay_buffer_size ≤ buf.cap

pooled-cap :
    (taken : Option Buffer) → IsTaken taken → (pooled taken).cap ≡ default_relay_buffer_size
pooled-cap none h = refl
pooled-cap (some b) h = h.1

get_relay_buffer-Gets :
    (taken : Option Buffer) (size : ℤ) (c : Clamped size)
    → IsTaken taken
    → Gets c.bytes (get_relay_buffer taken size)
unfolding get_relay_buffer
get_relay_buffer-Gets taken size c h = elim (Bool-cases (ltb default_relay_buffer_size c.bytes)) [
  | inl large ↦
      rw (c.is, get_relay_buffer, large)
        (record {
          buf = record { len = c.bytes; cap = c.bytes };
          result = refl;
          len_is = refl;
          roomy = ground arith;
        })
  | inr small ↦
      let fits : leb c.bytes (pooled taken).cap ≡ true = ground (arith, pooled-cap taken h) in
      rw (c.is, get_relay_buffer, small, fits)
        (record {
          buf = record (pooled taken) { len = c.bytes };
          result = refl;
          len_is = refl;
          roomy = omega (arith, pooled-cap taken h);
        })
]

put_relay_buffer-IsWhole :
    (b : Buffer) (pool : List Buffer) → All IsWhole pool → All IsWhole (put_relay_buffer b pool)
unfolding put_relay_buffer
put_relay_buffer-IsWhole b pool h = elim (Bool-cases (b.cap == default_relay_buffer_size)) [
  | inl fits ↦ rw fits ((refl, ground arith), h)
  | inr other ↦ rw other h
]

-- How a relay ends.
pub record Relayed (copy_buffer : ℕ → ℕ × CopyEnd) (is_tcp : Bool)
    (o : Option (RelayResult × List Buffer)) : Type 0 where
  pub bytes : ℕ
  pub low : min_buffer_size ≤ bytes
  pub high : bytes ≤ max_buffer_size
  pub out : RelayResult
  pub pool : List Buffer
  pub result : o ≡ some (out, pool)
  pub whole : All IsWhole pool
  pub n_is : out.n ≡ (copy_buffer bytes).0
  pub end_is : out.copy_end ≡ (copy_buffer bytes).1
  pub closing : out.closes_write ≡ (is_complete (copy_buffer bytes).1 && is_tcp)

-- Whatever size is configured, where the pool holds whole buffers of 64 KiB and gives one of these or none: `relay`
-- slices nothing out of range, the copying has a buffer of at least 32 KiB and at most 1 MiB, its count and its
-- end are reported, the target is told the end of the stream exactly if it is a TCP connection and the copying met
-- no error, and the pool holds whole buffers again.
pub relay-Relayed :
    (copy_buffer : ℕ → ℕ × CopyEnd) (is_tcp : Bool) (taken : Option Buffer) (size : ℤ)
    (pool : List Buffer)
    → IsTaken taken
    → All IsWhole pool
    → Relayed copy_buffer is_tcp (relay copy_buffer is_tcp taken size pool)
unfolding relay
relay-Relayed copy_buffer is_tcp taken size pool h hs =
    let c = clamp_buffer_size-Clamped size in
    let g = get_relay_buffer-Gets taken size c h in
    record {
      bytes = c.bytes;
      low = c.low;
      high = c.high;
      out = record {
        n = (copy_buffer c.bytes).0;
        copy_end = (copy_buffer c.bytes).1;
        closes_write = is_complete (copy_buffer c.bytes).1 && is_tcp;
      };
      pool = put_relay_buffer g.buf pool;
      result = rw (g.result, relay, g.len_is) refl;
      whole = put_relay_buffer-IsWhole g.buf pool hs;
      n_is = refl;
      end_is = refl;
      closing = refl;
    }
