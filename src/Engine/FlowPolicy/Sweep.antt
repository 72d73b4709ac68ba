-- ===== src/Engine/FlowPolicy/Sweep.antt =====
-- flowpolicy.go: the methods as operations on a finite map, and what `sweep` may delete.
use go_pass.Base.{
  ℕ, ◌-◌, ◌<◌, ◌≡◌, ◌≢◌, ◌↔◌, refl, true, false, Option, none, some, inl, inr, arith, ite, ◌==◌,
  Bool-cases, kept, kept-eq-some, sym, ◌∙◌, Unique, lookup-insert, lookup-erase, lookup-retain,
  insert-Unique, erase-Unique, retain-Unique,
}
use go_pass.Engine.ConnTrack.{ConnTracker, has_mapped}
use go_pass.Engine.FlowPolicy.{
  PolicyKind, pass, intercept, undecided, FlowKey, FlowKey-discrete, FlowPolicyEntry, FlowPolicies,
  policy_of, set, delete, keep_entry, sweep_tick, close, policy_block_ttl, policy_pass_ttl,
}

-- Each flow has one entry.
abbrev pub IsValid : FlowPolicies → Type 0
IsValid p = Unique FlowKey-discrete p.entries

pub policy_of-set :
    (now : ℕ) (p : FlowPolicies) (j k : FlowKey) (kind : PolicyKind) (port : ℕ)
    → policy_of j (set now p k kind port)
      ≡ ite
          (FlowKey-discrete k j)
          (some (record { kind = kind; mapped_port = port; created_at = now }))
          (policy_of j p)
unfolding policy_of set
policy_of-set now p j k kind port = lookup-insert FlowKey-discrete j k _ p.entries

pub policy_of-delete :
    (p : FlowPolicies) (j k : FlowKey)
    → policy_of j (delete p k) ≡ ite (FlowKey-discrete k j) none (policy_of j p)
unfolding policy_of delete
policy_of-delete p j k = lookup-erase FlowKey-discrete j k p.entries

-- The calls that change the policies; a sweep reads the tracker as it is at that time.
pub data Call : Type 0 where
  sets : ℕ → FlowKey → PolicyKind → ℕ → Call
  deletes : FlowKey → Call
  ticks : ℕ → Option ConnTracker → Call
  closes : Call

unfoldable pub step : FlowPolicies → Call → FlowPolicies
step p (sets now k kind port) = set now p k kind port
step p (deletes k) = delete p k
step p (ticks now tracker) = sweep_tick now tracker p
step p closes = close p

pub step-IsValid : (p : FlowPolicies) (c : Call) → IsValid p → IsValid (step p c)
unfolding step set delete sweep_tick close
step-IsValid p (sets now k kind port) v = insert-Unique FlowKey-discrete k _ p.entries v
step-IsValid p (deletes k) v = erase-Unique FlowKey-discrete k p.entries v
step-IsValid p (ticks now tracker) v =
    ground (arith, retain-Unique FlowKey-discrete (keep_entry now tracker) p.entries v)
step-IsValid p closes v = v

-- Why a sweep may keep an entry: an intercepted flow while the tracker has its port, a blocked
-- IPv6 flow for five minutes, any other flow for a quarter of an hour.
pub data Stays (now : ℕ) (t : ConnTracker) (v : FlowPolicyEntry) : Type 0 where
  proxied : v.kind ≡ intercept → has_mapped t v.mapped_port ≡ true → Stays now t v
  blocked :
      v.kind ≡ intercept → v.mapped_port ≡ 0 → now - v.created_at < policy_block_ttl → Stays now t v
  direct : v.kind ≢ intercept → now - v.created_at < policy_pass_ttl → Stays now t v

has_mapped_zero : (t : ConnTracker) → has_mapped t 0 ≡ false
unfolding has_mapped
has_mapped_zero t = refl

Stays-of_kind :
    (kind : PolicyKind) (now : ℕ) (t : ConnTracker) (k : FlowKey) (v : FlowPolicyEntry)
    → v.kind ≡ kind
    → keep_entry now (some t) k v ≡ true
    → Stays now t v
unfolding keep_entry
Stays-of_kind intercept now t k v e h = elim (Bool-cases (v.mapped_port == 0)) [
  | inl zero_port ↦ blocked e (ground arith) (ground arith)
  | inr port ↦ proxied e (ground arith)
]
Stays-of_kind pass now t k v e h = direct (λ x. cc) (ground arith)
Stays-of_kind undecided now t k v e h = direct (λ x. cc) (ground arith)

keep_of_Stays :
    (now : ℕ) (t : ConnTracker) (k : FlowKey) (v : FlowPolicyEntry)
    → Stays now t v
    → keep_entry now (some t) k v ≡ true
unfolding keep_entry
keep_of_Stays now t k v (proxied e h) = ground (arith, has_mapped_zero t)
keep_of_Stays now t k v (blocked e z h) = ground arith
keep_of_Stays now t k v (direct e h) = ground arith

sweep_tick-kept :
    (now : ℕ) (t : ConnTracker) (p : FlowPolicies) (k : FlowKey)
    → IsValid p
    → p.closed ≡ false
    → policy_of k (sweep_tick now (some t) p) ≡ kept (keep_entry now (some t)) k (policy_of k p)
unfolding sweep_tick policy_of
sweep_tick-kept now t p k u c =
    ground (arith, lookup-retain FlowKey-discrete (keep_entry now (some t)) k p.entries u)

-- While the policies are open and hold one entry for each flow, a tick of the sweep leaves exactly the entries that were there and
-- that have a reason to stay: intercepted flows whose port the tracker still has, blocked flows
-- younger than five minutes, and other flows younger than a quarter of an hour.
pub sweep_tick_lem :
    (now : ℕ) (t : ConnTracker) (p : FlowPolicies) (k : FlowKey) (v : FlowPolicyEntry)
    → IsValid p
    → p.closed ≡ false
    → (policy_of k (sweep_tick now (some t) p) ≡ some v)
      ↔ ((policy_of k p ≡ some v) × Stays now t v)
sweep_tick_lem now t p k v u c =
    let law = sweep_tick-kept now t p k u c in
    let half = kept-eq-some (keep_entry now (some t)) k (policy_of k p) v in
    (
      λ e. let (there, h) = half.0 (sym law ∙ e) in (there, Stays-of_kind v.kind now t k v refl h),
      λ h. law ∙ half.1 (h.0, keep_of_Stays now t k v h.1),
    )
