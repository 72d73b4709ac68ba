-- ===== src/Engine/Capture/Examples.antt =====
-- windivert.go, `Start`: rounds with a failed receive, a batch of one packet, and the end.
use go_pass.Base.{Bool, inl, inr, refl, true, false, [], ◌∷◌, arith, replicate}
use go_pass.Engine.Intercept.Examples.{env_of, browser, world0, packet_with, address0}
use go_pass.Engine.Capture.{Answer, Round, stopped, receive_loop, on, start_loop}
use go_pass.Engine.Capture.Rounds.{
  LeavesLoop, IsSensible, Rounded, closed_run, failed_run, receive_loop-Rounded,
}

abbrev round_of : Answer → Round
round_of a = record {
  stopped_before = false;
  meanwhile = λ x. x;
  during = λ x. x;
  closes = false;
  answer = a;
  stopped_after = false;
  envs = λ p. env_of browser;
}

abbrev failing : Round
failing = round_of (record {
  succeeded = false;
  n = 0;
  addr_bytes = 0;
  buf = replicate 4 0;
  addrs = address0 ∷ address0 ∷ [];
})

abbrev pub one_packet : Round
one_packet = round_of (record {
  succeeded = true;
  n = 40;
  addr_bytes = 80;
  buf = packet_with 2;
  addrs = address0 ∷ address0 ∷ [];
})

-- `Close` comes while the driver is called, and the receive succeeds.
abbrev closing : Round
closing = record one_packet {
  during = λ x. (record x.0 { handle = false }, stopped);
  closes = true;
}

abbrev last_round : Round
last_round = record failing { stopped_before = true }

receive_loop-Rounded_example :
    Rounded
      (closed_run (failing ∷ one_packet ∷ closing ∷ last_round ∷ []) false)
      (failed_run true (failing ∷ one_packet ∷ closing ∷ last_round ∷ []) 0)
      (receive_loop true
        (failing ∷ one_packet ∷ closing ∷ last_round ∷ [])
        (on (start_loop world0)))
receive_loop-Rounded_example =
    receive_loop-Rounded true world0 (failing ∷ one_packet ∷ closing ∷ last_round ∷ [])
      (is_sensible, (is_sensible_full, (is_sensible_closing, (is_sensible_last, tt))))
  where
    quiet : {b : Bool} → LeavesLoop b (λ x. x)
    quiet = record { own_queue = λ x. refl; own_state = λ x. inl refl }

    is_sensible : IsSensible failing
    is_sensible = record { first = quiet; second = quiet; within = λ e. omega arith }

    is_sensible_full : IsSensible one_packet
    is_sensible_full = record { first = quiet; second = quiet; within = λ e. omega arith }

    is_sensible_closing : IsSensible closing
    is_sensible_closing = record {
      first = quiet;
      second = record { own_queue = λ x. refl; own_state = λ x. inr (refl, refl) };
      within = λ e. omega arith;
    }

    is_sensible_last : IsSensible last_round
    is_sensible_last = record { first = quiet; second = quiet; within = λ e. omega arith }
