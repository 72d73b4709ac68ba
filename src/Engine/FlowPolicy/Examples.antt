-- ===== src/Engine/FlowPolicy/Examples.antt =====
-- flowpolicy.go: a blocked flow and two flows told apart.
use go_pass.Base.{◌*◌, ◌≡◌, ◌↔◌, refl, false, none, some, retain, insert}
use go_pass.Engine.ConnTrack.Examples.{tracker0}
use go_pass.Engine.FlowPolicy.{
  intercept, FlowKey, FlowPolicyEntry, FlowPolicies, policy_of, set, new_flow_policies, sweep_tick,
  flow_key_v4, minute,
}
use go_pass.Engine.FlowPolicy.Sweep.{IsValid, Stays, sweep_tick_lem, step, step-IsValid, sets}

abbrev key0 : FlowKey
key0 = flow_key_v4 0x0a01a8c0 0x22d8b85d 51000 443

abbrev blocked0 : FlowPolicies
blocked0 = set 0 new_flow_policies key0 intercept 0

abbrev entry0 : FlowPolicyEntry
entry0 = record { kind = intercept; mapped_port = 0; created_at = 0 }

blocked0-IsValid : IsValid blocked0
unfolding set step
blocked0-IsValid = step-IsValid new_flow_policies (sets 0 key0 intercept 0) tt

blocked0_open : blocked0.closed ≡ false
unfolding set
blocked0_open = refl

sweep_tick_lem_example :
    (policy_of key0 (sweep_tick minute (some tracker0) blocked0) ≡ some entry0)
    ↔ ((policy_of key0 blocked0 ≡ some entry0) × Stays minute tracker0 entry0)
sweep_tick_lem_example =
    sweep_tick_lem minute tracker0 blocked0 key0 entry0 blocked0-IsValid blocked0_open

-- A blocked flow is forgotten after five minutes.
block_ends : policy_of key0 (sweep_tick (5 * minute) (some tracker0) blocked0) ≡ none
unfolding policy_of sweep_tick set retain insert
block_ends = refl
