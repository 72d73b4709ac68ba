-- ===== src/Engine/Capture/Rounds.antt =====
-- windivert.go, `Start`: what the receive loop keeps from round to round.
use go_pass.Base.{
  ℕ, ◌+◌, ◌≤◌, ◌≡◌, ◌⊎◌, refl, Bool, true, false, not, ◌&&◌, ◌||◌, List, [], ◌∷◌, Option, some, inl,
  inr, arith, Bool-cases, length, take, slice_to-front, All, ltb, leb, if◌then◌else◌,
}
use go_pass.Engine.Batch.Queue.{new_send_queue-Holds}
use go_pass.Engine.Intercept.{World}
use go_pass.Engine.Intercept.Emit.{QueueEmpty, QueueEmpty-QueueOk, Empties, flush_queue-Empties}
use go_pass.Engine.Intercept.Batches.{process_batch-BatchEnds}
use go_pass.Engine.Capture.{
  RecvError, Received, received, failed, recv_batch, State, stopped, running, error, Loop, Round,
  at_check, at_answer, met, Next, on, returned, start_loop, receive_failed, handle_received,
  receive_round, receive_loop,
}
use go_pass.Engine.Capture.Steps.{round_stopped, round_closed, round_failed, round_received}

-- How often the receive has failed since it last succeeded, after one more answer.
abbrev pub fails_after : Received → ℕ → ℕ
fails_after (failed e) k = k + 1
fails_after (received n packets) k = 0

-- The same after some rounds.
abbrev pub failed_run : Bool → List Round → ℕ → ℕ
failed_run has_recv_ex [] k = k
failed_run has_recv_ex (r ∷ rs) k =
    failed_run has_recv_ex rs (fails_after (recv_batch has_recv_ex r.answer) k)

abbrev pub ReportsIf : Bool → State → Type 0
ReportsIf true s = (e : RecvError) × (s ≡ error e)
ReportsIf false s = s ≡ running

-- Whether `Close` was called in one of the rounds, or before.
abbrev pub closed_run : List Round → Bool → Bool
closed_run [] c = c
closed_run (r ∷ rs) c = closed_run rs (r.closes || c)

-- The status that the loop reports after this many failed receives.
abbrev pub Reports : ℕ → State → Type 0
Reports k s = ReportsIf (leb 20 k) s

-- The status is the loop's, or the one that `Close` has set.
abbrev pub Shows : Bool → ℕ → State → Type 0
Shows c k s = Reports k s ⊎ ((c ≡ true) × (s ≡ stopped))

pub record Sound (c : Bool) (k : ℕ) (l : Loop) : Type 0 where
  pub failures : l.fails ≡ k
  pub told : l.errored ≡ leb 20 k
  pub reports : Shows c k l.state
  pub nothing_held : QueueEmpty l.world.queue

-- The send queue belongs to the loop, and the status is left alone, or set to stopped by a `Close`.
pub record LeavesLoop (closes : Bool) (change : World × State → World × State) : Type 0 where
  pub own_queue : (x : World × State) → (change x).0.queue ≡ x.0.queue
  pub own_state :
      (x : World × State) → ((change x).1 ≡ x.1) ⊎ ((closes ≡ true) × ((change x).1 ≡ stopped))

-- What the rest of the program and the driver can do in a round; a receive that succeeds writes no more
-- than fits in the buffer.
pub record IsSensible (r : Round) : Type 0 where
  pub first : LeavesLoop r.closes r.meanwhile
  pub second : LeavesLoop r.closes r.during
  pub within : r.answer.succeeded ≡ true → r.answer.n ≤ length r.answer.buf

-- `handle_received`, where what was received is within the buffer and the addresses.
handle_received-Empties :
    (r : Round) (w : World) (n packets : ℕ)
    → QueueEmpty w.queue
    → n ≤ length r.answer.buf
    → packets ≤ length r.answer.addrs
    → Empties (handle_received r w n packets)
unfolding handle_received
handle_received-Empties r w n packets q hn hp = elim (Bool-cases (ltb 0 n && ltb 0 packets)) [
  | inr nothing ↦ rw nothing (record { world = w; result = refl; empty = q })
  | inl some_packets ↦
      let inside : ltb (length r.answer.addrs) packets ≡ false = ground arith in
      let handled =
        process_batch-BatchEnds r.envs 0 w (take n r.answer.buf) (take packets r.answer.addrs)
          (QueueEmpty-QueueOk w.queue q) in
      rw (some_packets, slice_to-front r.answer.buf n hn, inside, handled.result)
        (flush_queue-Empties (r.envs 0) handled.world handled.whole)
]

-- What a receive that succeeded says of its counts.
recv_batch-within :
    (has_recv_ex : Bool) (r : Round) (n packets : ℕ)
    → IsSensible r
    → recv_batch has_recv_ex r.answer ≡ received n packets
    → (n ≤ length r.answer.buf) × (packets ≤ length r.answer.addrs)
unfolding recv_batch
recv_batch-within has_recv_ex r n packets h e = elim (Bool-cases r.answer.succeeded) [
  | inr refused ↦ absurd (ground arith)
  | inl did ↦ let fits = h.within did in (ground arith, ground arith)
]

-- A loop that goes on after this many failures in a row, or one that has returned.
abbrev pub Goes : Bool → ℕ → Next → Type 0
Goes c k (on l) = Sound c k l
Goes c k (returned l) = (l.state ≡ stopped) × QueueEmpty l.world.queue

-- A round, or a loop, that ends after this many failed receives in a row.
pub record Rounded (c : Bool) (k : ℕ) (o : Option Next) : Type 0 where
  pub next : Next
  pub result : o ≡ some next
  pub goes : Goes c k next

Reports-many : (k : ℕ) (e : RecvError) (s : State) → leb 20 k ≡ true → s ≡ error e → Reports k s
Reports-many k e s many h = rw many (e, h)

Reports-few : (k : ℕ) (s : State) → leb 20 k ≡ false → s ≡ running → Reports k s
Reports-few k s few h = rw few h

Reports-next :
    (k : ℕ) (b c : Bool) (s : State)
    → b ≡ c
    → c ≡ leb 20 k
    → (leb 20 (k + 1) && not b) ≡ false
    → ReportsIf c s
    → Reports (k + 1) s
Reports-next k b true s p told later (e, shown) = Reports-many (k + 1) e s (ground arith) shown
Reports-next k b false s p told later shown = Reports-few (k + 1) s (ground arith) shown

Shows-next :
    (c : Bool) (k : ℕ) (b : Bool) (s : State)
    → b ≡ leb 20 k
    → (leb 20 (k + 1) && not b) ≡ false
    → Shows c k s
    → Shows c (k + 1) s
Shows-next c k b s told later (inl shown) =
    inl (Reports-next k b (leb 20 k) s told refl later shown)
Shows-next c k b s told later (inr over) = inr over

-- What the rest of the program leaves of the status.
Shows-left :
    (c closes : Bool) (k : ℕ) (change : World × State → World × State) (x : World × State)
    → LeavesLoop closes change
    → Shows (closes || c) k x.1
    → Shows (closes || c) k (change x).1
Shows-left c closes k change x h shown = elim (h.own_state x) [
  | inl same ↦ rw same shown
  | inr (close, over) ↦ inr (ground arith, over)
]

Shows-more : (c closes : Bool) (k : ℕ) (s : State) → Shows c k s → Shows (closes || c) k s
Shows-more c closes k s (inl shown) = inl shown
Shows-more c closes k s (inr (close, over)) = inr (ground arith, over)

receive_failed-Goes :
    (r : Round) (c : Bool) (k : ℕ) (l : Loop) (e : RecvError)
    → Sound c k l
    → Goes c (k + 1) (receive_failed r l e)
unfolding receive_failed
receive_failed-Goes r c k l e s = elim (Bool-cases r.stopped_after) [
  | inl over ↦ rw (over, receive_failed) (refl, s.nothing_held)
  | inr goes_on ↦ elim (Bool-cases (leb 20 (l.fails + 1) && not l.errored)) [
    | inl first ↦
        rw (goes_on, receive_failed, first)
          (record {
            failures = ground (arith, s.failures);
            told = ground (arith, s.failures);
            reports = inl (Reports-many (k + 1) e (error e) (ground (arith, s.failures)) refl);
            nothing_held = s.nothing_held;
          })
    | inr later ↦
        rw (goes_on, receive_failed, later)
          (record {
            failures = ground (arith, s.failures);
            told = ground (arith, s.failures, s.told);
            reports =
                Shows-next c k l.errored l.state s.told (ground (arith, s.failures)) s.reports;
            nothing_held = s.nothing_held;
          })
  ]
]

running_again :
    (c b d : Bool) (s : State)
    → b ≡ d
    → ReportsIf d s ⊎ ((c ≡ true) × (s ≡ stopped))
    → Shows c 0 (if b then running else s)
running_again c b true s told h = inl (rw told refl)
running_again c b false s told h = rw told h

Received-cases :
    (x : Received)
    → ((e : RecvError) × (x ≡ failed e)) ⊎ ((n : ℕ) × (packets : ℕ) × (x ≡ received n packets))
Received-cases (failed e) = inl (e, refl)
Received-cases (received n packets) = inr (n, packets, refl)

receive_round-Rounded :
    (has_recv_ex : Bool) (r : Round) (c : Bool) (k : ℕ) (l : Loop)
    → IsSensible r
    → Sound c k l
    → Rounded
        (r.closes || c)
        (fails_after (recv_batch has_recv_ex r.answer) k)
        (receive_round has_recv_ex r l)
receive_round-Rounded has_recv_ex r c k l h s =
    let own : QueueEmpty (at_check r l).0.queue =
      rw (h.first.own_queue (l.world, l.state)) s.nothing_held in
    let still : QueueEmpty (at_answer r l).0.queue = rw (h.second.own_queue (at_check r l)) own in
    let shown : Shows (r.closes || c) k (at_answer r l).1 =
      Shows-left c r.closes k r.during (at_check r l) h.second (
        Shows-left c r.closes k r.meanwhile (l.world, l.state) h.first
          (Shows-more c r.closes k l.state s.reports)) in
    elim (Bool-cases r.stopped_before) [
      | inl over ↦
          let f = flush_queue-Empties (r.envs 0) (at_check r l).0 (QueueEmpty-QueueOk _ own) in
          record {
            next = returned (record l { world = f.world; state = stopped });
            result = round_stopped has_recv_ex r l f.world over f.result;
            goes = (refl, f.empty);
          }
      | inr goes_on ↦ elim (Bool-cases (at_check r l).0.handle) [
        | inr closed ↦ record {
          next = returned (record l { world = (at_check r l).0; state = stopped });
          result = round_closed has_recv_ex r l goes_on closed;
          goes = (refl, own);
        }
        | inl ready ↦ elim (Received-cases (recv_batch has_recv_ex r.answer)) [
          | inl (e, fails) ↦ record {
            next = receive_failed r (met l (at_answer r l)) e;
            result = round_failed has_recv_ex r l e goes_on ready fails;
            goes = rw fails (
                receive_failed-Goes r (r.closes || c) k _ e (record {
                  failures = s.failures;
                  told = s.told;
                  reports = shown;
                  nothing_held = still;
                }));
          }
          | inr (n, packets, got) ↦
              let (hn, hp) = recv_batch-within has_recv_ex r n packets h got in
              let f = handle_received-Empties r (at_answer r l).0 n packets still hn hp in
              record {
                next = on (record {
                  world = f.world;
                  fails = 0;
                  errored = false;
                  state = if l.errored then running else (at_answer r l).1;
                });
                result =
                    round_received has_recv_ex r l n packets f.world goes_on ready got f.result;
                goes = rw got (record {
                  failures = refl;
                  told = refl;
                  reports =
                      running_again (r.closes || c) l.errored (leb 20 k) (at_answer r l).1 s.told
                        shown;
                  nothing_held = f.empty;
                });
              }
        ]
      ]
    ]

pub receive_loop_on :
    (has_recv_ex : Bool) (rs : List Round) (c : Bool) (k : ℕ) (next : Next)
    → All IsSensible rs
    → Goes c k next
    → Rounded (closed_run rs c) (failed_run has_recv_ex rs k) (receive_loop has_recv_ex rs next)
unfolding receive_loop
receive_loop_on has_recv_ex [] c k next h g = record { next = next; result = refl; goes = g }
receive_loop_on has_recv_ex (r ∷ rs) c k (returned l) h g = record {
  next = returned l;
  result = refl;
  goes = g;
}
receive_loop_on has_recv_ex (r ∷ rs) c k (on l) (h, hs) g =
    let one = receive_round-Rounded has_recv_ex r c k l h g in
    let others = receive_loop_on has_recv_ex rs _ _ one.next hs one.goes in
    record { next = others.next; result = rw one.result others.result; goes = others.goes }

-- From the start of the loop, in rounds in which the rest of the program leaves the loop's send queue
-- alone, and the status too but for a `Close`, which sets it to stopped, and in which a receive that
-- succeeds writes no more bytes than the buffer has: nothing is accessed out of range, and while the loop
-- goes on its send queue is empty after every round, and the status is an error if the last 20 receives or
-- more have failed, and else running, unless there was a `Close` and it is stopped; when the loop has
-- returned, the status is stopped and the send queue is empty.
pub receive_loop-Rounded :
    (has_recv_ex : Bool) (w : World) (rs : List Round)
    → All IsSensible rs
    → Rounded
        (closed_run rs false)
        (failed_run has_recv_ex rs 0)
        (receive_loop has_recv_ex rs (on (start_loop w)))
unfolding start_loop
receive_loop-Rounded has_recv_ex w rs h =
    receive_loop_on has_recv_ex rs false 0 (on (start_loop w)) h (record {
      failures = refl;
      told = refl;
      reports = inl refl;
      nothing_held = new_send_queue-Holds;
    })
