-- ===== src/Engine/ConnTrack/Examples.antt =====
-- conntrack.go: two connections of one program through a new tracker.
use go_pass.Base.{
  ℕ, ◌≡◌, ◌≢◌, ◌≤◌, refl, ap, false, [], ◌∷◌, none, some, insert, Text-discrete, itoa, ℕ_discrete,
  arith,
}
use go_pass.Engine.Addr.{ip_string}
use go_pass.Engine.ConnTrack.{
  ConnKey, OrigFlowKey, ConnTarget, ConnTracker, ConnKey-discrete, OrigFlowKey-discrete, mapped_key,
  target_key, entry_of, mapped_of, alloc, new_conn_tracker, set_target, gc_tick, gc_loop, unlink,
}
use go_pass.Engine.ConnTrack.Invariant.{Inv}
use go_pass.Engine.ConnTrack.Alloc.{SetResult, set_target_lem}
use go_pass.Engine.ConnTrack.Gc.{survivor, gc_tick_lem}
use go_pass.Engine.ConnTrack.Flows.{
  new_conn_tracker-Inv, set_target_stable, sets, activates, deletes, ticks, run,
  run-new_conn_tracker-Inv,
}

abbrev pub tracker0 : ConnTracker
tracker0 = new_conn_tracker 30 7893

abbrev pub target_from : ℕ → ℕ → ConnTarget
target_from port now = record {
  orig_src_ip = record { b0 = 192; b1 = 168; b2 = 1; b3 = 10 };
  orig_src_port = port;
  orig_dst_ip = record { b0 = 93; b1 = 184; b2 = 216; b3 = 34 };
  orig_dst_port = 443;
  orig_if_idx = 7;
  orig_sub_if_idx = 0;
  created_at = now;
}

abbrev pub tracker1 : ConnTracker
tracker1 = (set_target tracker0 (target_from 51000 0)).0

abbrev tracker2 : ConnTracker
tracker2 = (set_target tracker1 (target_from 51001 0)).0

pub tracker0-Inv : Inv tracker0
tracker0-Inv = new_conn_tracker-Inv 30 7893

pub first_port : set_target tracker0 (target_from 51000 0) ≡ (tracker1, some 32768)
unfolding set_target mapped_of entry_of alloc new_conn_tracker
first_port = refl

second_port : set_target tracker1 (target_from 51001 0) ≡ (tracker2, some 32769)
unfolding set_target mapped_of entry_of alloc new_conn_tracker insert OrigFlowKey-discrete
    Text-discrete ip_string itoa ℕ_discrete ConnKey-discrete
second_port = refl

pub first_fresh : mapped_of (target_key (target_from 51000 0)) tracker0 ≡ none
unfolding mapped_of new_conn_tracker
first_fresh = refl

other_key : target_key (target_from 51001 0) ≢ target_key (target_from 51000 0)
other_key e = omega (arith, ap (λ (o : OrigFlowKey). o.src_port) e)

pub tracker1-Inv : Inv tracker1
tracker1-Inv = (set_target_lem tracker0 (target_from 51000 0) tracker0-Inv).0

tracker1_open : tracker1.closed ≡ false
unfolding set_target mapped_of entry_of alloc new_conn_tracker
tracker1_open = refl

set_target_lem_example :
    Inv (set_target tracker0 (target_from 51000 0)).0
    × SetResult tracker0 (target_from 51000 0) (set_target tracker0 (target_from 51000 0))
set_target_lem_example = set_target_lem tracker0 (target_from 51000 0) tracker0-Inv

set_target_stable_example : set_target tracker1 (target_from 51000 5000) ≡ (tracker1, some 32768)
set_target_stable_example =
    set_target_stable tracker0 tracker1 (target_from 51000 0) 32768 tracker0-Inv first_port
      (target_from 51000 5000) refl

run-new_conn_tracker-Inv_example : Inv (
    run (new_conn_tracker 30 7893) (
      sets (target_from 51000 0)
      ∷ activates (mapped_key 32768)
      ∷ sets (target_from 51001 0)
      ∷ ticks 40000000000
      ∷ deletes (mapped_key 32768)
      ∷ []))
run-new_conn_tracker-Inv_example = run-new_conn_tracker-Inv 30 7893 (
    sets (target_from 51000 0)
    ∷ activates (mapped_key 32768)
    ∷ sets (target_from 51001 0)
    ∷ ticks 40000000000
    ∷ deletes (mapped_key 32768)
    ∷ [])

tracker1_small : tracker1.ttl ≤ 9223372036
unfolding set_target mapped_of new_conn_tracker alloc OrigFlowKey-discrete Text-discrete ip_string
    itoa ℕ_discrete entry_of ConnKey-discrete
tracker1_small = omega arith

gc_tick_lem_example :
    Inv (gc_tick 40000000000 tracker1)
    × ((k : ConnKey)
        → entry_of k (gc_tick 40000000000 tracker1)
          ≡ survivor 40000000000 tracker1 k (entry_of k tracker1))
gc_tick_lem_example = gc_tick_lem 40000000000 tracker1 tracker1-Inv tracker1_open tracker1_small

-- An idle entry is collected after its 30 seconds, and not before.
collected_late : entry_of (mapped_key 32768) (gc_tick 30000000001 tracker1) ≡ none
unfolding entry_of gc_tick set_target mapped_of new_conn_tracker alloc gc_loop insert unlink
    OrigFlowKey-discrete Text-discrete ip_string itoa ℕ_discrete ConnKey-discrete
collected_late = refl

kept_early : entry_of (mapped_key 32768) (gc_tick 30000000000 tracker1) ≡ some (target_from 51000 0)
unfolding entry_of gc_tick set_target mapped_of new_conn_tracker alloc gc_loop insert
    ConnKey-discrete Text-discrete ℕ_discrete
kept_early = refl
