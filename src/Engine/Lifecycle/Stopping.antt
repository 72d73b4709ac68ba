-- ===== src/Engine/Lifecycle/Stopping.antt =====
-- windivert.go, `Close` while the receive loop runs.
use go_pass.Base.{
  ◌≡◌, refl, ap, ◌∙◌, Bool, false, Option, some, inl, inr, arith, Bool-cases, Option-cases, ◌==◌,
}
use go_pass.Engine.Batch.{reset, count}
use go_pass.Engine.Intercept.{Env, World, flush_queue}
use go_pass.Engine.Capture.{State, Loop, Round, at_check, Next, returned, stopped, receive_round}
use go_pass.Engine.Capture.Steps.{round_stopped, round_closed}
use go_pass.Engine.Lifecycle.{close_interceptor}

-- The round returns, and has handed nothing to the driver.
pub record Returns (l : Loop) (o : Option Next) : Type 0 where
  pub last : Loop
  pub result : o ≡ some (returned last)
  pub tells : last.state ≡ stopped
  pub silent : last.world.wire ≡ l.world.wire
  pub released : last.world.handle ≡ false

-- Without a handle a flush hands nothing over.
record Dropped (w : World) (o : Option World) : Type 0 where
  world : World
  result : o ≡ some world
  wire_is : world.wire ≡ w.wire
  handle_is : world.handle ≡ false

flush_queue-Dropped : (env : Env) (w : World) → w.handle ≡ false → Dropped w (flush_queue env w)
unfolding flush_queue
flush_queue-Dropped env w closed = elim (Option-cases w.queue) [
  | inl e ↦ record { world = w; result = ground arith; wire_is = refl; handle_is = closed }
  | inr (q, e) ↦ elim (Bool-cases (count q == 0)) [
    | inl nothing ↦ record { world = w; result = ground arith; wire_is = refl; handle_is = closed }
    | inr full ↦ record {
      world = record w { queue = some (reset q) };
      result = ground arith;
      wire_is = refl;
      handle_is = closed;
    }
  ]
]

-- If `Close` comes before a round of the receive loop looks at its stop signal, or after that and before it
-- takes the handle, then this round is the last one: the loop returns, reports that it is stopped, has given
-- up the driver's handle and has handed nothing more to the driver, whatever is queued.
pub receive_round-close_interceptor :
    (has_recv_ex : Bool) (r : Round) (l : Loop)
    → r.meanwhile (l.world, l.state) ≡ close_interceptor (l.world, l.state)
    → Returns l (receive_round has_recv_ex r l)
unfolding close_interceptor
receive_round-close_interceptor has_recv_ex r l closing =
    let released = ap (λ (x : World × State). x.0.handle) closing in
    let silent = ap (λ (x : World × State). x.0.wire) closing in
    elim (Bool-cases r.stopped_before) [
      | inl over ↦
          let f = flush_queue-Dropped (r.envs 0) (at_check r l).0 released in
          record {
            last = record l { world = f.world; state = stopped };
            result = round_stopped has_recv_ex r l f.world over f.result;
            tells = refl;
            silent = f.wire_is ∙ silent;
            released = f.handle_is;
          }
      | inr goes_on ↦ record {
        last = record l { world = (at_check r l).0; state = stopped };
        result = round_closed has_recv_ex r l goes_on released;
        tells = refl;
        silent = silent;
        released = released;
      }
    ]
