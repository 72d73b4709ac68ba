-- ===== src/Engine/Intercept/Flags.antt =====
-- flowpolicy.go, windivert.go: the bits of the TCP flags that decide, and the policy that a flow has
-- after it is written.
use go_pass.Base.{
  ℕ, ◌/◌, ◌%◌, ◌<◌, ◌≡◌, ◌≢◌, ◌⊎◌, ◌∙◌, refl, Bool, true, false, ◌||◌, arith, ◌==◌, none, some, inl,
  inr, holds_to, holds_to-at,
}
use go_pass.Engine.FlowPolicy
use go_pass.Engine.FlowPolicy.{
  PolicyKind, pass, undecided, FlowKey, FlowPolicies, is_connection_start,
}
use go_pass.Engine.FlowPolicy.Keys.{
  same_bool, same_bool→eq, syn_without_ack, is_connection_start_lem,
}
use go_pass.Engine.FlowPolicy.Sweep.{policy_of-set, policy_of-delete}
use go_pass.Engine.Intercept.Tcp4.{is_closing, drops_policy}

-- Bit 0 is FIN and bit 2 is RST.
abbrev pub fin_or_rst : ℕ → Bool
fin_or_rst flags = flags % 2 == 1 || flags / 4 % 2 == 1

closing_table : holds_to (λ f. same_bool (is_closing f) (fin_or_rst f)) 256 ≡ true
unfolding holds_to is_closing
closing_table = refl

pub is_closing-fin_or_rst : (flags : ℕ) → flags < 256 → is_closing flags ≡ fin_or_rst flags
is_closing-fin_or_rst flags h = same_bool→eq _ _ (holds_to-at _ flags 256 h closing_table)

-- A byte of flags without FIN and RST.
pub record GoesOn (flags : ℕ) : Type 0 where
  pub is_byte : flags < 256
  pub not_ended : fin_or_rst flags ≡ false

-- SYN without ACK, FIN and RST.
pub record Starts (flags : ℕ) : Type 0 where
  pub goes_on : GoesOn flags
  pub is_syn : syn_without_ack flags ≡ true

pub GoesOn-closing : (flags : ℕ) → GoesOn flags → is_closing flags ≡ false
GoesOn-closing flags g = is_closing-fin_or_rst flags g.is_byte ∙ g.not_ended

pub Starts-start : (flags : ℕ) → Starts flags → is_connection_start flags ≡ true
Starts-start flags s = is_connection_start_lem flags s.goes_on.is_byte ∙ s.is_syn

-- Flags on which a flow that was let through keeps its policy: a flow that found no process yet keeps
-- it on all but a SYN without ACK.
abbrev pub KeepsDirect : PolicyKind → ℕ → Type 0
KeepsDirect kind flags = (kind ≡ pass) ⊎ ((kind ≡ undecided) × (syn_without_ack flags ≡ false))

pub drops_policy-direct :
    (kind : PolicyKind) (flags : ℕ)
    → GoesOn flags
    → KeepsDirect kind flags
    → drops_policy kind flags ≡ false
unfolding drops_policy
drops_policy-direct kind flags g (inl e) = rw e (ground (arith, GoesOn-closing flags g))
drops_policy-direct kind flags g (inr (e, late)) =
    rw e (ground (arith, GoesOn-closing flags g, is_connection_start_lem flags g.is_byte))

module _ (p : FlowPolicies) (k : FlowKey) where
  pub get-set_same :
      (now port : ℕ) (kind : PolicyKind)
      → FlowPolicy.get (FlowPolicy.set now p k kind port) k ≡ some (kind, port)
  unfolding FlowPolicy.get
  get-set_same now port kind = ground (arith, policy_of-set now p k k kind port)

  pub get-delete_same : FlowPolicy.get (FlowPolicy.delete p k) k ≡ none
  unfolding FlowPolicy.get
  get-delete_same = ground (arith, policy_of-delete p k k)

  pub get-delete_other :
      (j : FlowKey) → k ≢ j → FlowPolicy.get (FlowPolicy.delete p k) j ≡ FlowPolicy.get p j
  unfolding FlowPolicy.get
  get-delete_other j ne = ground (arith, policy_of-delete p j k)
