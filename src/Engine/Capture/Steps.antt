-- ===== src/Engine/Capture/Steps.antt =====
-- windivert.go, `Start`: the four ways in which a round of the receive loop goes.
use go_pass.Base.{ℕ, ◌≡◌, Bool, true, false, some, arith, if◌then◌else◌}
use go_pass.Engine.Intercept.{World, flush_queue}
use go_pass.Engine.Capture.{
  RecvError, received, failed, recv_batch, stopped, running, Loop, Round, at_check, at_answer, met,
  on, returned, receive_failed, handle_received, receive_round,
}

module _ (has_recv_ex : Bool) (r : Round) (l : Loop) where
  pub round_stopped :
      (w : World)
      → r.stopped_before ≡ true
      → flush_queue (r.envs 0) ((at_check r l).0) ≡ some w
      → receive_round has_recv_ex r l ≡ some (returned (record l { world = w; state = stopped }))
  unfolding receive_round
  round_stopped w over flushed = ground arith

  pub round_closed :
      r.stopped_before ≡ false
      → (at_check r l).0.handle ≡ false
      → receive_round has_recv_ex r l
        ≡ some (returned (record l { world = (at_check r l).0; state = stopped }))
  unfolding receive_round
  round_closed goes_on closed = ground arith

  pub round_failed :
      (e : RecvError)
      → r.stopped_before ≡ false
      → (at_check r l).0.handle ≡ true
      → recv_batch has_recv_ex r.answer ≡ failed e
      → receive_round has_recv_ex r l ≡ some (receive_failed r (met l (at_answer r l)) e)
  unfolding receive_round
  round_failed e goes_on ready fails = ground arith

  pub round_received :
      (n packets : ℕ) (w : World)
      → r.stopped_before ≡ false
      → (at_check r l).0.handle ≡ true
      → recv_batch has_recv_ex r.answer ≡ received n packets
      → handle_received r (at_answer r l).0 n packets ≡ some w
      → receive_round has_recv_ex r l
        ≡ some (
            on (record {
              world = w;
              fails = 0;
              errored = false;
              state = if l.errored then running else (at_answer r l).1;
            }))
  unfolding receive_round
  round_received n packets w goes_on ready got handled = ground arith
