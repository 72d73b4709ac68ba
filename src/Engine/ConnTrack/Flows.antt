-- ===== src/Engine/ConnTrack/Flows.antt =====
-- conntrack.go: what the packet path relies on, and histories of calls.
use go_pass.Base.{
  ℕ, ◌≡◌, ◌≢◌, ◌≤◌, ◌==◌, true, false, sym, ap, ◌∙◌, List, [], ◌∷◌, none, some, inl, inr, arith,
}
use mathlib.Core.Option.{some-injective}
use go_pass.Engine.Addr.{loopback_text}
use go_pass.Engine.ConnTrack.{
  ConnKey, OrigFlowKey, ConnTarget, ConnTracker, mapped_key, target_key, entry_of, mapped_of,
  new_conn_tracker, set_target, activate, delete, gc_tick, close, get, has_mapped, mapped_port_min,
  mapped_port_max,
}
use go_pass.Engine.ConnTrack.Invariant.{IsLinked, Inv, entry_of-add_conn, mapped_of-add_conn}
use go_pass.Engine.ConnTrack.Alloc.{SetResult, set_target_lem, set_target-known}
use go_pass.Engine.ConnTrack.Gc.{gc_tick-Inv}
use go_pass.Engine.ConnTrack.Remove.{delete_lem, activate_lem}

-- A port leads to one connection: the link tells which.
pub mapped_of-injective :
    (t : ConnTracker) (o p : OrigFlowKey) (k : ConnKey)
    → IsLinked t
    → mapped_of o t ≡ some k
    → mapped_of p t ≡ some k
    → o ≡ p
mapped_of-injective t o p k i e f =
    let (v, held, same) = i.live o k e in
    let (w, held', same') = i.live p k f in
    sym same ∙ ap target_key (some-injective _ _ (sym held ∙ held')) ∙ same'

-- After `Set` has given a port, the connection's link leads to it.
SetResult-mapped :
    (t t' : ConnTracker) (target : ConnTarget) (port : ℕ)
    → SetResult t target (t', some port)
    → mapped_of (target_key target) t' ≡ some (mapped_key port)
SetResult-mapped t t' target port (inl (same, e)) = ap (mapped_of (target_key target)) same ∙ e
SetResult-mapped t t' target port (inr (fresh, a)) =
    a.links_are (target_key target)
    ∙ ground (arith, mapped_of-add_conn (target_key target) port target t)

-- No link is lost by a `Set` that gives a port.
SetResult-kept :
    (t t' : ConnTracker) (target : ConnTarget) (port : ℕ) (o : OrigFlowKey) (k : ConnKey)
    → SetResult t target (t', some port)
    → mapped_of o t ≡ some k
    → mapped_of o t' ≡ some k
SetResult-kept t t' target port o k (inl (same, _)) e = ap (mapped_of o) same ∙ e
SetResult-kept t t' target port o k (inr (fresh, a)) e =
    a.links_are o ∙ ground (arith, mapped_of-add_conn o port target t)

module _ (t t' : ConnTracker) (target : ConnTarget) (port : ℕ) (i : Inv t)
    (done : set_target t target ≡ (t', some port)) where
  after_set : Inv t' × SetResult t target (t', some port)
  after_set = rw done at (set_target_lem t target i)

  -- From a valid tracker: right after `Set` has given a port, `Set` for the same addresses and ports
  -- returns this port and changes nothing.
  pub set_target_stable :
      (again : ConnTarget)
      → target_key again ≡ target_key target
      → set_target t' again ≡ (t', some port)
  set_target_stable again same =
      let (i', r) = after_set in
      let e = ap (λ o. mapped_of o t') same ∙ SetResult-mapped t t' target port r in
      (set_target-known t' again (mapped_key port) i' e).1

  -- From a valid tracker: right after `Set` has given a port, a port that `Set` gives to a connection
  -- with another address or port is a different one.
  pub set_target_disjoint :
      (other : ConnTarget) (t₂ : ConnTracker) (port₂ : ℕ)
      → target_key other ≢ target_key target
      → set_target t' other ≡ (t₂, some port₂)
      → port₂ ≢ port
  set_target_disjoint other t₂ port₂ differs done₂ same =
      let (i', r) = after_set in
      let (i₂, r₂) = rw done₂ at (set_target_lem t' other i') in
      let e = SetResult-mapped t t' target port r in
      let kept = SetResult-kept t' t₂ other port₂ (target_key target) (mapped_key port) r₂ e in
      let mine = SetResult-mapped t' t₂ other port₂ r₂ ∙ ap (λ q. some (mapped_key q)) same in
      differs (mapped_of-injective t₂ _ _ (mapped_key port) i₂.links mine kept)

  -- From a valid tracker: the port that `Set` gives to a connection without one leads `Get`, on the
  -- loopback address, to the connection's target.
  pub set_target-get :
      mapped_of (target_key target) t ≡ none → get t' loopback_text port ≡ some target
  unfolding get
  set_target-get fresh = elim (after_set.1) [
    | inl (_, e) ↦ cc
    | inr (_, a) ↦
        a.entries_are (mapped_key port)
        ∙ ground (arith, entry_of-add_conn (mapped_key port) port target t)
  ]

pub has_mapped_pos : (t : ConnTracker) (port : ℕ) → has_mapped t port ≡ true → (port == 0) ≡ false
unfolding has_mapped
has_mapped_pos t port h = ground arith

-- A port that `Set` gives is one of the pool.
pub set_target-in_pool :
    (t : ConnTracker) (target : ConnTarget) (t' : ConnTracker) (port : ℕ)
    → Inv t
    → set_target t target ≡ (t', some port)
    → (mapped_port_min ≤ port) × (port ≤ mapped_port_max)
set_target-in_pool t target t' port i done = in_pool (after_set t t' target port i done).1
  where
    in_pool :
        SetResult t target (t', some port) → (mapped_port_min ≤ port) × (port ≤ mapped_port_max)
    in_pool (inr (_, a)) = (a.low, a.high)
    in_pool (inl (_, e)) =
        let (v, held, _) = i.links.live (target_key target) (mapped_key port) e in
        let pooled = i.links.in_pool (mapped_key port) v held in
        let same = ap (λ (c : ConnKey). c.src_port) pooled.is_key in
        (omega (arith, same, pooled.low), omega (arith, same, pooled.high))

-- A mapped port is never 0, which the packet path takes for a failure.
pub set_target_pos :
    (t : ConnTracker) (target : ConnTarget) (t' : ConnTracker) (port : ℕ)
    → Inv t
    → set_target t target ≡ (t', some port)
    → mapped_port_min ≤ port
set_target_pos t target t' port i done = (set_target-in_pool t target t' port i done).0

-- The calls that change a tracker.
pub data Call : Type 0 where
  sets : ConnTarget → Call
  activates deletes : ConnKey → Call
  ticks : ℕ → Call
  closes : Call

unfoldable pub step : ConnTracker → Call → ConnTracker
step t (sets target) = (set_target t target).0
step t (activates k) = activate t k.src_ip k.src_port
step t (deletes k) = delete t k.src_ip k.src_port
step t (ticks now) = gc_tick now t
step t closes = close t

unfoldable pub run : ConnTracker → List Call → ConnTracker
unfolding step
run t [] = t
run t (c ∷ cs) = run (step t c) cs

pub new_conn_tracker-Inv : (ttl reserved : ℕ) → Inv (new_conn_tracker ttl reserved)
unfolding new_conn_tracker entry_of mapped_of
new_conn_tracker-Inv ttl reserved = record {
  links = record {
    unique = tt;
    linked = λ k v e. cc;
    live = λ o k e. cc;
    in_pool = λ k v e. cc;
    active_live = λ k e. cc;
  };
  next_low = omega arith;
  next_high = omega arith;
}

close-IsLinked : (t : ConnTracker) → IsLinked t → IsLinked (close t)
unfolding close entry_of mapped_of
close-IsLinked t i = record {
  unique = i.unique;
  linked = i.linked;
  live = i.live;
  in_pool = i.in_pool;
  active_live = i.active_live;
}

close-Inv : (t : ConnTracker) → Inv t → Inv (close t)
close-Inv t i =
    let linked = close-IsLinked t i.links in
    unfold close in record { links = linked; next_low = i.next_low; next_high = i.next_high }

step-Inv : (t : ConnTracker) (c : Call) → Inv t → Inv (step t c)
unfolding step
step-Inv t (sets target) i = (set_target_lem t target i).0
step-Inv t (activates k) i = (activate_lem t k i).0
step-Inv t (deletes k) i = (delete_lem t k i).0
step-Inv t (ticks now) i = gc_tick-Inv now t i
step-Inv t closes i = close-Inv t i

run-Inv : (cs : List Call) (t : ConnTracker) → Inv t → Inv (run t cs)
unfolding run
run-Inv [] t i = i
run-Inv (c ∷ cs) t i = run-Inv cs (step t c) (step-Inv t c i)

-- After any history of calls on a new tracker, `entries` and `orig` are inverse to one another, every
-- mapped port lies in the pool and is not the TProxy's own, and `active` names entries only.
pub run-new_conn_tracker-Inv :
    (ttl reserved : ℕ) (cs : List Call) → Inv (run (new_conn_tracker ttl reserved) cs)
run-new_conn_tracker-Inv ttl reserved cs = run-Inv cs _ (new_conn_tracker-Inv ttl reserved)
