-- ===== src/Engine/ConnTrack/Given.antt =====
-- conntrack.go: a port that `Set` gives, and the tracker when it is taken back at once.
use go_pass.Base.{ℕ, ◌≤◌, ◌≡◌, ◌∙◌, refl, ap, Option, none, some, inl, inr, arith}
use go_pass.Engine.Addr.{loopback_text}
use go_pass.Engine.ConnTrack.{
  ConnKey, ConnTarget, ConnTracker, mapped_key, mapped_port_min, mapped_port_max, target_key,
  entry_of, mapped_of, set_target, get, delete,
}
use go_pass.Engine.ConnTrack.Invariant.{Inv, entry_of-add_conn}
use go_pass.Engine.ConnTrack.Alloc.{IsFree, SetResult, Allocated, set_target_lem}
use go_pass.Engine.ConnTrack.Remove.{delete_lem}

-- A port of the pool, whose entry has the addresses and ports of the connection.
pub record Given (t : ConnTracker) (target : ConnTarget) : Type 0 where
  pub tracker : ConnTracker
  pub port : ℕ
  pub is_set : set_target t target ≡ (tracker, some port)
  pub low : mapped_port_min ≤ port
  pub high : port ≤ mapped_port_max
  pub entry : ConnTarget
  pub held : get tracker loopback_text port ≡ some entry
  pub same_flow : target_key entry ≡ target_key target

module _ (t : ConnTracker) (target : ConnTarget) (i : Inv t) where
  known_port :
      (port : ℕ)
      → set_target t target ≡ (t, some port)
      → mapped_of (target_key target) t ≡ some (mapped_key port)
      → Given t target
  unfolding get
  known_port port e m =
      let (v, held, same) = i.links.live (target_key target) (mapped_key port) m in
      let pooled = i.links.in_pool (mapped_key port) v held in
      let is_port : port ≡ pooled.port = ap (λ (k : ConnKey). k.src_port) pooled.is_key in
      record {
        tracker = t;
        port = port;
        is_set = e;
        low = omega (arith, is_port, pooled.low);
        high = omega (arith, is_port, pooled.high);
        entry = v;
        held = held;
        same_flow = same;
      }

  new_port :
      (t' : ConnTracker) (port : ℕ)
      → set_target t target ≡ (t', some port)
      → Allocated t t' target port
      → Given t target
  unfolding get
  new_port t' port e a = record {
    tracker = t';
    port = port;
    is_set = e;
    low = a.low;
    high = a.high;
    entry = target;
    held =
        a.entries_are (mapped_key port)
        ∙ ground (arith, entry_of-add_conn (mapped_key port) port target t);
    same_flow = refl;
  }

  -- On a valid tracker with a free port, `Set` gives a port.
  pub set_target-Given : (q : ℕ) → IsFree t q → Given t target
  set_target-Given q free =
      go (set_target t target).0 (set_target t target).1 refl (set_target_lem t target i).1
    where
      go :
          (t' : ConnTracker) (o : Option ℕ)
          → set_target t target ≡ (t', o)
          → SetResult t target (t', o)
          → Given t target
      go t' none e r = absurd (r.1 q free)
      go t' (some port) e (inl (same, m)) = known_port port (e ∙ ap (λ s. (s, some port)) same) m
      go t' (some port) e (inr (_, a)) = new_port t' port e a

  -- The port of a connection that had none, deleted right away: every entry is as before.
  pub set_target-undone :
      (t' : ConnTracker) (port : ℕ) (k : ConnKey)
      → mapped_of (target_key target) t ≡ none
      → set_target t target ≡ (t', some port)
      → entry_of k (delete t' loopback_text port) ≡ entry_of k t
  set_target-undone t' port k fresh e = go (rw e at (set_target_lem t target i))
    where
      go :
          Inv t' × SetResult t target (t', some port)
          → entry_of k (delete t' loopback_text port) ≡ entry_of k t
      go (i', inl (_, m)) = absurd cc
      go (i', inr (_, a)) = ground (
        arith,
        (delete_lem t' (mapped_key port) i').1 k,
        a.entries_are k,
        entry_of-add_conn k port target t,
        a.was_free,
      )
