-- ===== src/Engine/FlowPolicy.antt =====
-- internal/engine/flowpolicy.go: the route of each flow, fixed when the flow is first seen. The map
-- is an association list, time is in nanoseconds, and each method runs under the lock.
pub mod Sweep
pub mod Keys
pub mod Examples
use go_pass.Base.{
  ℕ, zero, suc, ◌+◌, ◌-◌, ◌*◌, ◌/◌, ◌%◌, Bool, true, false, not, ◌&&◌, List, [], ◌∷◌, Option, none,
  some, ltb, ◌==◌, if◌then◌else◌, bit_and, Bytes, Text-discrete, ℕ_discrete, lookup, insert, erase,
  retain, length, replicate, ◌++◌,
}
use go_pass.Engine.ConnTrack.{ConnTracker, second, has_mapped}

abbrev pub tcp_fin : ℕ
tcp_fin = 0x01

abbrev pub tcp_syn : ℕ
tcp_syn = 0x02

abbrev pub tcp_rst : ℕ
tcp_rst = 0x04

abbrev pub tcp_ack : ℕ
tcp_ack = 0x10

unfoldable pub is_connection_start : ℕ → Bool
is_connection_start flags = not (bit_and flags tcp_syn == 0) && bit_and flags tcp_ack == 0

pub data PolicyKind : Type 0 where
  pass intercept undecided : PolicyKind

pub record FlowKey : Type 0 where
  pub src_ip : Bytes
  pub dst_ip : Bytes
  pub src_port : ℕ
  pub dst_port : ℕ
  pub ver : ℕ

unfoldable pub FlowKey-discrete : Discrete FlowKey
FlowKey-discrete = hlevel (ℕ_discrete, Text-discrete)

-- The bytes `byte(v)`, `byte(v >> 8)`, … at the front of an array of 16.
abbrev pub array_v4 : ℕ → Bytes
array_v4 v = v % 256 ∷ v / 256 % 256 ∷ v / 65536 % 256 ∷ v / 16777216 % 256 ∷ replicate 12 0

unfoldable pub flow_key_v4 : ℕ → ℕ → ℕ → ℕ → FlowKey
flow_key_v4 src_ip dst_ip src_port dst_port = record {
  src_ip = array_v4 src_ip;
  dst_ip = array_v4 dst_ip;
  src_port = src_port;
  dst_port = dst_port;
  ver = 4;
}

pub record FlowPolicyEntry : Type 0 where
  pub kind : PolicyKind
  pub mapped_port : ℕ
  pub created_at : ℕ

abbrev pub minute : ℕ
minute = 60 * second

abbrev pub policy_pass_ttl : ℕ
policy_pass_ttl = 15 * minute

abbrev pub policy_block_ttl : ℕ
policy_block_ttl = 5 * minute

pub record FlowPolicies : Type 0 where
  pub entries : List (FlowKey × FlowPolicyEntry)
  pub closed : Bool

abbrev pub new_flow_policies : FlowPolicies
new_flow_policies = record { entries = []; closed = false }

unfoldable pub policy_of : FlowKey → FlowPolicies → Option FlowPolicyEntry
unfolding lookup
policy_of k p = lookup FlowKey-discrete k p.entries

-- `Get`: the kind and the mapped port, or none for `ok == false`.
unfoldable pub get : FlowPolicies → FlowKey → Option (PolicyKind × ℕ)
get p k = elim (policy_of k p) [ none ↦ none | some e ↦ some (e.kind, e.mapped_port) ]

unfoldable pub set : ℕ → FlowPolicies → FlowKey → PolicyKind → ℕ → FlowPolicies
set now p k kind mapped_port = record p {
  entries =
      insert FlowKey-discrete k
        (record { kind = kind; mapped_port = mapped_port; created_at = now }) p.entries;
}

unfoldable pub delete : FlowPolicies → FlowKey → FlowPolicies
delete p k = record p { entries = erase FlowKey-discrete k p.entries }

unfoldable pub size : FlowPolicies → ℕ
size p = length p.entries

abbrev pub is_intercept : PolicyKind → Bool
is_intercept intercept = true
is_intercept pass = false
is_intercept undecided = false

abbrev tracker_has : Option ConnTracker → ℕ → Bool
tracker_has none port = false
tracker_has (some t) port = has_mapped t port

-- The test of the loop in `sweep`.
unfoldable pub keep_entry : ℕ → Option ConnTracker → FlowKey → FlowPolicyEntry → Bool
keep_entry now tracker k v =
    if is_intercept v.kind && v.mapped_port == 0
    then ltb (now - v.created_at) policy_block_ttl
    else if is_intercept v.kind
    then tracker_has tracker v.mapped_port
    else ltb (now - v.created_at) policy_pass_ttl

unfoldable pub sweep : ℕ → Option ConnTracker → FlowPolicies → FlowPolicies
unfolding keep_entry
sweep now tracker p = record p { entries = retain (keep_entry now tracker) p.entries }

-- A tick of `sweepLoop`, which ends when the policies are closed.
unfoldable pub sweep_tick : ℕ → Option ConnTracker → FlowPolicies → FlowPolicies
unfolding sweep
sweep_tick now tracker p = if p.closed then p else sweep now tracker p

pub close : FlowPolicies → FlowPolicies
close p = record p { closed = true }
