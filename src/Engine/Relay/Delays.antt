-- ===== src/Engine/Relay/Delays.antt =====
-- tproxy.go, `Accept`: how long it sleeps.
use go_pass.Base.{
  ℕ, zero, suc, ◌*◌, ◌≡◌, refl, ap, false, List, [], ◌∷◌, arith, ltb, ◌==◌, if◌then◌else◌,
}
use go_pass.Engine.Relay.{
  Accepted, connection, temporary_error, other_error, millisecond, next_delay, Did, slept, handled,
  accept_loop,
}

-- Five milliseconds, doubled with every error that came before in a row, and a second at most.
abbrev pub doubled : ℕ → ℕ
doubled zero = 5 * millisecond
doubled (suc k) = doubled k * 2

abbrev pub bounded : ℕ → ℕ
bounded k = if ltb (1000 * millisecond) (doubled k) then 1000 * millisecond else doubled k

-- What happens when `k` errors have come in a row.
abbrev pub expected : ℕ → List Accepted → List Did
expected k [] = []
expected k (connection ∷ rest) = handled ∷ expected 0 rest
expected k (temporary_error ∷ rest) = slept (bounded k) ∷ expected (suc k) rest
expected k (other_error ∷ rest) = []

abbrev delay_after : ℕ → ℕ
delay_after zero = 0
delay_after (suc k) = bounded k

doubled_pos : (k : ℕ) → (doubled k == 0) ≡ false
doubled_pos zero = ground arith
doubled_pos (suc k) = ground (arith, doubled_pos k)

next_delay-delay_after : (k : ℕ) → next_delay (delay_after k) ≡ bounded k
unfolding next_delay
next_delay-delay_after zero = refl
next_delay-delay_after (suc k) = ground (arith, doubled_pos k)

accept_loop-expected :
    (k : ℕ) (results : List Accepted) → accept_loop (delay_after k) results ≡ expected k results
unfolding accept_loop
accept_loop-expected k [] = refl
accept_loop-expected k (connection ∷ rest) = ap (◌∷◌ handled) (accept_loop-expected 0 rest)
accept_loop-expected k (temporary_error ∷ rest) =
    rw (next_delay-delay_after k) (ap (◌∷◌ (slept (bounded k))) (accept_loop-expected (suc k) rest))
accept_loop-expected k (other_error ∷ rest) = refl

-- For every row of results of the listener, `Accept` handles every connection before the first other error,
-- and after the first, second, … temporary error in a row it sleeps 5, 10, … milliseconds, doubled each time
-- and never more than a second; a connection starts the row again.
pub accept_loop_lem : (results : List Accepted) → accept_loop 0 results ≡ expected 0 results
accept_loop_lem results = accept_loop-expected 0 results
