-- ===== src/Engine/Relay.antt =====
-- internal/engine/tproxy.go: the buffers that copy a stream, `relay`, and the loop of `Accept`. A buffer is its length
-- and its capacity; what `sync.Pool` gives out is a parameter, none where it makes a new one. none is a slice
-- out of range.
pub mod Sized
pub mod Delays
pub mod Examples
use go_pass.Base.{
  ℕ, zero, suc, ◌+◌, ◌*◌, Bool, true, false, not, ◌&&◌, ◌||◌, List, [], ◌∷◌, Option, none, some,
  ltb, leb, ◌==◌, if◌then◌else◌, ℤ, pos, negsuc, above, ◌>>=◌,
}
use go_pass.Config.{clamp_buffer_size}

pub record Buffer : Type 0 where
  pub len : ℕ
  pub cap : ℕ

abbrev pub default_relay_buffer_size : ℕ
default_relay_buffer_size = 64 * 1024

abbrev pub new_buffer : ℕ → Buffer
new_buffer size = record { len = size; cap = size }

-- `b[:size]`
abbrev pub resliced : Buffer → ℤ → Option Buffer
resliced b (pos size) = if leb size b.cap then some (record b { len = size }) else none
resliced b (negsuc size) = none

-- `make([]byte, size)`
abbrev pub made_buffer : ℤ → Option Buffer
made_buffer (pos size) = some (new_buffer size)
made_buffer (negsuc size) = none

-- What the pool gives, which makes a new buffer where it has none.
abbrev pub pooled : Option Buffer → Buffer
pooled none = new_buffer default_relay_buffer_size
pooled (some b) = b

unfoldable pub get_relay_buffer : Option Buffer → ℤ → Option Buffer
unfolding clamp_buffer_size
get_relay_buffer taken size =
    let clamped = clamp_buffer_size size in
    if above clamped default_relay_buffer_size
    then made_buffer clamped
    else resliced (pooled taken) clamped

-- What goes back to the pool.
unfoldable pub put_relay_buffer : Buffer → List Buffer → List Buffer
put_relay_buffer b pool =
    if b.cap == default_relay_buffer_size
    then record b { len = default_relay_buffer_size } ∷ pool
    else pool

-- How the copying ended: with no error, at the end of the stream, or with another error.
pub data CopyEnd : Type 0 where
  copied end_of_file copy_failed : CopyEnd

pub record RelayResult : Type 0 where
  pub n : ℕ
  pub copy_end : CopyEnd
  pub closes_write : Bool

abbrev pub is_complete : CopyEnd → Bool
is_complete copied = true
is_complete end_of_file = true
is_complete copy_failed = false

-- `copy_buffer` is `io.CopyBuffer` with a buffer of this length, `is_tcp` whether the target is a TCP connection.
unfoldable pub relay :
    (ℕ → ℕ × CopyEnd) → Bool → Option Buffer → ℤ → List Buffer → Option (RelayResult × List Buffer)
unfolding get_relay_buffer put_relay_buffer
relay copy_buffer is_tcp taken size pool = do
  buf ← get_relay_buffer taken size
  let result = copy_buffer buf.len
  some (
    record { n = result.0; copy_end = result.1; closes_write = is_complete result.1 && is_tcp },
    put_relay_buffer buf pool,
  )

-- What `Accept` of the listener returns.
pub data Accepted : Type 0 where
  connection temporary_error other_error : Accepted

abbrev pub millisecond : ℕ
millisecond = 1000000

unfoldable pub next_delay : ℕ → ℕ
next_delay delay =
    let longer = if delay == 0 then 5 * millisecond else delay * 2 in
    if ltb (1000 * millisecond) longer then 1000 * millisecond else longer

-- What the loop does: it sleeps, or handles a connection.
pub data Did : Type 0 where
  slept : ℕ → Did
  handled : Did

unfoldable pub accept_loop : ℕ → List Accepted → List Did
unfolding next_delay
accept_loop delay [] = []
accept_loop delay (connection ∷ rest) = handled ∷ accept_loop 0 rest
accept_loop delay (temporary_error ∷ rest) =
    slept (next_delay delay) ∷ accept_loop (next_delay delay) rest
accept_loop delay (other_error ∷ rest) = []
