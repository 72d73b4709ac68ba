-- ===== src/Engine/Capture.antt =====
-- internal/engine/windivert.go, `Start`, and batch.go, `RecvBatch`: the loop that receives packets. A
-- round of the loop meets what the rest of the program did to the interceptor and to its status before the
-- loop took the handle and while the driver was called, whether it was stopped before and after that call,
-- and what the driver answers.
pub mod Steps
pub mod Rounds
pub mod Examples
use go_pass.Base.{
  ℕ, zero, suc, ◌+◌, ◌/◌, ◌%◌, Bool, true, false, not, ◌&&◌, ◌||◌, List, [], ◌∷◌, Option, none,
  some, ltb, leb, ◌==◌, if◌then◌else◌, Bytes, Text, ◌>>=◌, length, take, slice_to,
}
use go_pass.Engine.Batch.{WinDivertAddress, batch_packets, recv_buf_size, new_send_queue}
use go_pass.Engine.Intercept.{Env, World, flush_queue}
use go_pass.Engine.Intercept.Dispatch.{BatchEnd, process_batch}

abbrev pub win_divert_address_size : ℕ
win_divert_address_size = 80

-- A call of `WinDivertRecv` or `WinDivertRecvEx`: whether it succeeded, the two counts that it wrote, and the
-- buffer and the addresses after it.
pub record Answer : Type 0 where
  pub succeeded : Bool
  pub n : ℕ
  pub addr_bytes : ℕ
  pub buf : Bytes
  pub addrs : List WinDivertAddress

pub data RecvError : Type 0 where
  empty_addresses empty_buffer recv_failed recv_ex_failed : RecvError
  bad_address_length : ℕ → RecvError
  bad_scale : ℕ → ℕ → RecvError

pub data Received : Type 0 where
  received : ℕ → ℕ → Received
  failed : RecvError → Received

-- `Recv`
abbrev pub recv : Answer → Received
recv a =
    if length a.buf == 0
    then failed empty_buffer
    else if not a.succeeded
    then failed recv_failed
    else received a.n 1

-- `RecvBatch` into a buffer that is not empty, as `Start` makes it.
unfoldable pub recv_batch : Bool → Answer → Received
recv_batch has_recv_ex a =
    let packets = a.addr_bytes / win_divert_address_size in
    if length a.addrs == 0
    then failed empty_addresses
    else if not has_recv_ex || ltb (length a.addrs) 2
    then recv a
    else if not a.succeeded
    then failed recv_ex_failed
    else if a.addr_bytes == 0 || not (a.addr_bytes % win_divert_address_size == 0)
    then failed (bad_address_length a.addr_bytes)
    else if ltb (length a.addrs) packets || ltb (length a.buf) a.n
    then failed (bad_scale packets a.n)
    else received a.n packets

-- The state that the status page shows.
pub data State : Type 0 where
  stopped running : State
  error : RecvError → State

pub record Loop : Type 0 where
  pub world : World
  pub fails : ℕ
  pub errored : Bool
  pub state : State

pub record Round : Type 0 where
  pub stopped_before : Bool
  -- before the loop takes the handle, and while the driver is called; `closes` is whether `Close` is
  -- among it
  pub meanwhile : World × State → World × State
  pub during : World × State → World × State
  pub closes : Bool
  pub answer : Answer
  pub stopped_after : Bool
  pub envs : ℕ → Env

-- What the loop takes the handle from, and what it meets when the driver has answered.
abbrev pub at_check : Round → Loop → World × State
at_check r l = r.meanwhile (l.world, l.state)

abbrev pub at_answer : Round → Loop → World × State
at_answer r l = r.during (at_check r l)

abbrev pub met : Loop → World × State → Loop
met l (w, s) = record l { world = w; state = s }

-- The loop goes on, or has returned.
pub data Next : Type 0 where
  on : Loop → Next
  returned : Loop → Next

-- When the driver is open.
unfoldable pub start_loop : World → Loop
start_loop w = record {
  world = record w { handle = true; queue = some new_send_queue };
  fails = 0;
  errored = false;
  state = running;
}

-- The branch of a failed receive.
abbrev pub receive_failed : Round → Loop → RecvError → Next
receive_failed r l e =
    if r.stopped_after
    then returned (record l { state = stopped })
    else if leb 20 (l.fails + 1) && not l.errored
    then on (record l { fails = l.fails + 1; errored = true; state = error e })
    else on (record l { fails = l.fails + 1 })

-- `recvBuf[:n]` and `addrs[:packets]`, handled and injected; none is out of range.
unfoldable pub handle_received : Round → World → ℕ → ℕ → Option World
handle_received r w n packets =
    if ltb 0 n && ltb 0 packets
    then (do
      buf ← slice_to r.answer.buf 0 n
      handled ←
          (if ltb (length r.answer.addrs) packets
            then none
            else process_batch r.envs 0 w buf (take packets r.answer.addrs))
      flush_queue (r.envs 0) handled.0)
    else some w

unfoldable pub receive_round : Bool → Round → Loop → Option Next
unfolding recv_batch handle_received
receive_round has_recv_ex r l =
    let w = (at_check r l).0 in
    let after = at_answer r l in
    if r.stopped_before
    then (do
      flushed ← flush_queue (r.envs 0) w
      some (returned (record l { world = flushed; state = stopped })))
    else if not w.handle
    then some (returned (record l { world = w; state = stopped }))
    else elim (recv_batch has_recv_ex r.answer) [
      | failed e ↦ some (receive_failed r (met l after) e)
      | received n packets ↦ do
        handled ← handle_received r after.0 n packets
        some (
            on (record {
              world = handled;
              fails = 0;
              errored = false;
              state = if l.errored then running else after.1;
            }))
    ]

-- The loop over some rounds, from the outcome so far.
unfoldable pub receive_loop : Bool → List Round → Next → Option Next
unfolding receive_round
receive_loop has_recv_ex [] next = some next
receive_loop has_recv_ex (r ∷ rs) (returned l) = some (returned l)
receive_loop has_recv_ex (r ∷ rs) (on l) =
    receive_round has_recv_ex r l >>= receive_loop has_recv_ex rs
