-- ===== src/Process/Table.antt =====
-- internal/process/table_windows.go: reading a table whose size is known only by asking. A call of the
-- DLL is a parameter: it takes the number of the round and the size of the buffer, and answers with a
-- code, the size that it asks for and what it wrote. `none` is out of fuel.
pub mod Settles
use go_pass.Base.{
  ℕ, zero, suc, ◌+◌, Bool, true, false, not, ◌&&◌, ◌||◌, [], Option, none, some, leb, ◌==◌,
  if◌then◌else◌, Bytes,
}

abbrev pub error_insufficient_buffer : ℕ
error_insufficient_buffer = 122

abbrev pub max_table_attempts : ℕ
max_table_attempts = 4

pub record Answer : Type 0 where
  pub ret : ℕ
  pub need : ℕ
  pub buf : Bytes

pub data TableError : Type 0 where
  size_query_failed fetch_failed : ℕ → TableError
  kept_growing : ℕ → ℕ → TableError

pub data TableResult : Type 0 where
  ok : Bytes → TableResult
  err : TableError → TableResult

unfoldable pub fetch_loop : (ℕ → ℕ → Answer) → ℕ → ℕ → ℕ → Option TableResult
fetch_loop fetch zero attempt size = none
fetch_loop fetch (suc fuel) attempt size =
    let answer = fetch attempt size in
    let again = fetch_loop fetch fuel (attempt + 1) answer.need in
    if answer.ret == 0
    then some (ok answer.buf)
    else if not (answer.ret == error_insufficient_buffer)
    then some (err (fetch_failed answer.ret))
    else if leb max_table_attempts attempt || leb answer.need size
    then some (err (kept_growing answer.need attempt))
    else again

unfoldable pub fetch_with_retry : (ℕ → ℕ → Answer) → ℕ → Option TableResult
unfolding fetch_loop
fetch_with_retry fetch size = fetch_loop fetch max_table_attempts 1 size

-- `probe` is the answer to the call without a buffer. A nil buffer is the empty one.
unfoldable pub query_win_table : Answer → (ℕ → ℕ → Answer) → Option TableResult
unfolding fetch_with_retry
query_win_table probe fetch =
    if not (probe.ret == 0) && (not (probe.ret == error_insufficient_buffer) || probe.need == 0)
    then some (err (size_query_failed probe.ret))
    else if probe.need == 0
    then some (ok [])
    else fetch_with_retry fetch probe.need
