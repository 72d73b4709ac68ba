-- ===== src/Engine/ConnTrack/Alloc.antt =====
-- conntrack.go, `Set`: the walk over the port pool.
use go_pass.Base.{
  ℕ, zero, suc, ◌+◌, ◌-◌, ◌≤◌, ◌<◌, ◌≡◌, ◌≢◌, refl, ap, ◌∙◌, Option, none, some, inl, inr, arith,
  leb, ◌==◌, if◌then◌else◌, Bool-cases, Option-cases, ◌⊎◌,
}
use go_pass.Engine.ConnTrack.{
  ConnKey, OrigFlowKey, ConnTarget, ConnTracker, mapped_port_min, mapped_port_max, mapped_key,
  target_key, entry_of, mapped_of, add_conn, advance, alloc, pool_rounds, set_target,
}
use go_pass.Engine.ConnTrack.Invariant.{IsLinked, Inv, add_conn-IsLinked}

-- What `Set` establishes for a new connection: a port that was free now leads to the target, and
-- every other entry and link is as before.
pub record Allocated (t t' : ConnTracker) (target : ConnTarget) (port : ℕ) : Type 0 where
  pub was_free : entry_of (mapped_key port) t ≡ none
  pub low : mapped_port_min ≤ port
  pub high : port ≤ mapped_port_max
  pub not_reserved : port ≢ t.reserved_port
  pub entries_are : (k : ConnKey) → entry_of k t' ≡ entry_of k (add_conn port target t)
  pub links_are : (o : OrigFlowKey) → mapped_of o t' ≡ mapped_of o (add_conn port target t)

abbrev pub AllocResult : ConnTracker → ConnTarget → ConnTracker × Option ℕ → Type 0
AllocResult t target (t', none) =
    ((k : ConnKey) → entry_of k t' ≡ entry_of k t)
    × ((o : OrigFlowKey) → mapped_of o t' ≡ mapped_of o t)
AllocResult t target (t', some port) = Allocated t t' target port

advance_in_pool :
    (p : ℕ)
    → mapped_port_min ≤ p
    → p ≤ mapped_port_max
    → (mapped_port_min ≤ advance p) × (advance p ≤ mapped_port_max)
advance_in_pool p h k = ground arith

-- The port under the cursor cannot be taken.
abbrev IsTaken : ConnTracker → ℕ → Type 0
IsTaken t port =
    (port ≡ t.reserved_port) ⊎ ((v : ConnTarget) × (entry_of (mapped_key port) t ≡ some v))

abbrev skip : ConnTracker → ConnTracker
skip t = record t { next_port = advance t.next_port }

abbrev take_port : ConnTracker → ConnTarget → ConnTracker × Option ℕ
take_port t target = (add_conn t.next_port target (skip t), some t.next_port)

alloc-suc :
    (rounds : ℕ) (t : ConnTracker) (target : ConnTarget)
    → (IsTaken t t.next_port × (alloc (suc rounds) t target ≡ alloc rounds (skip t) target))
      ⊎ ((t.next_port ≢ t.reserved_port)
          × (entry_of (mapped_key t.next_port) t ≡ none)
          × (alloc (suc rounds) t target ≡ take_port t target))
unfolding alloc
alloc-suc rounds t target = elim (Bool-cases (t.next_port == t.reserved_port)) [
  | inl same ↦ inl (inl (ground arith), rw same)
  | inr differs ↦ elim (Option-cases (entry_of (mapped_key t.next_port) t)) [
    | inl free ↦ inr (ground arith, free, rw (differs, free))
    | inr (v, held) ↦ inl (inr (v, held), rw (differs, held))
  ]
]

skip-IsLinked : (t : ConnTracker) → IsLinked t → IsLinked (skip t)
unfolding entry_of mapped_of
skip-IsLinked t i = record {
  unique = i.unique;
  linked = i.linked;
  live = i.live;
  in_pool = i.in_pool;
  active_live = i.active_live;
}

skip-Inv : (t : ConnTracker) → Inv t → Inv (skip t)
skip-Inv t i =
    let (low, high) = advance_in_pool t.next_port i.next_low i.next_high in
    record { links = skip-IsLinked t i.links; next_low = low; next_high = high }

entry_of-skip : (k : ConnKey) (t : ConnTracker) → entry_of k (skip t) ≡ entry_of k t
unfolding entry_of
entry_of-skip k t = refl

mapped_of-skip : (o : OrigFlowKey) (t : ConnTracker) → mapped_of o (skip t) ≡ mapped_of o t
unfolding mapped_of
mapped_of-skip o t = refl

module _ (t : ConnTracker) (target : ConnTarget) where
  take_port-Allocated :
      Inv t
      → t.next_port ≢ t.reserved_port
      → entry_of (mapped_key t.next_port) t ≡ none
      → Allocated t (take_port t target).0 target t.next_port
  unfolding entry_of mapped_of
  take_port-Allocated i other free = record {
    was_free = free;
    low = i.next_low;
    high = i.next_high;
    not_reserved = other;
    entries_are = λ k. refl;
    links_are = λ o. refl;
  }

  take_port-Inv :
      Inv t
      → t.next_port ≢ t.reserved_port
      → entry_of (mapped_key t.next_port) t ≡ none
      → mapped_of (target_key target) t ≡ none
      → Inv (take_port t target).0
  unfolding entry_of mapped_of
  take_port-Inv i other free fresh =
      let next = skip-Inv t i in
      record {
        links =
            add_conn-IsLinked (skip t) t.next_port target next.links free fresh i.next_low
              i.next_high other;
        next_low = next.next_low;
        next_high = next.next_high;
      }

abbrev AllocPost : ConnTracker → ConnTarget → ConnTracker × Option ℕ → Type 0
AllocPost t target r = Inv r.0 × AllocResult t target r

AllocPost-skip :
    (t : ConnTracker) (target : ConnTarget) (r : ConnTracker × Option ℕ)
    → AllocPost (skip t) target r
    → AllocPost t target r
unfolding entry_of mapped_of
AllocPost-skip t target (t', none) h = h
AllocPost-skip t target (t', some port) (i, a) = (
  i,
  record {
    was_free = a.was_free;
    low = a.low;
    high = a.high;
    not_reserved = a.not_reserved;
    entries_are = a.entries_are;
    links_are = a.links_are;
  },
)

pub alloc_lem :
    (rounds : ℕ) (t : ConnTracker) (target : ConnTarget)
    → Inv t
    → mapped_of (target_key target) t ≡ none
    → AllocPost t target (alloc rounds t target)
alloc_lem zero t target i fresh = unfold alloc in (i, ((λ k. refl), (λ o. refl)))
alloc_lem (suc rounds) t target i fresh = elim (alloc-suc rounds t target) [
  | inl (_, e) ↦ rw e (
      AllocPost-skip t target _ (
        alloc_lem rounds (skip t) target (skip-Inv t i)
          (mapped_of-skip (target_key target) t ∙ fresh)))
  | inr (other, free, e) ↦
      rw e (take_port-Inv t target i other free fresh, take_port-Allocated t target i other free)
]

-- How many rounds the cursor needs to reach a port.
abbrev distance : ℕ → ℕ → ℕ
distance from to = if leb from to then to - from else to + pool_rounds - from

distance-advance :
    (p q : ℕ)
    → mapped_port_min ≤ p
    → p ≤ mapped_port_max
    → mapped_port_min ≤ q
    → q ≤ mapped_port_max
    → p ≢ q
    → distance (advance p) q + 1 ≡ distance p q
distance-advance p q a b c d ne = ground arith

abbrev pub IsFree : ConnTracker → ℕ → Type 0
IsFree t port =
    (mapped_port_min ≤ port)
    × (port ≤ mapped_port_max)
    × (port ≢ t.reserved_port)
    × (entry_of (mapped_key port) t ≡ none)

-- A port that is taken is not a free one.
IsTaken-IsFree : (t : ConnTracker) (p q : ℕ) → IsTaken t p → IsFree t q → p ≢ q
IsTaken-IsFree t p q (inl e) f = λ same. f.2 (ground arith)
IsTaken-IsFree t p q (inr (v, e)) f = λ same. cc (ap (λ r. entry_of (mapped_key r) t) same)

alloc_finds :
    (rounds : ℕ) (t : ConnTracker) (target : ConnTarget) (q : ℕ)
    → Inv t
    → IsFree t q
    → distance t.next_port q < rounds
    → (alloc rounds t target).1 ≢ none
alloc_finds zero t target q i f d = elim d [ ]
alloc_finds (suc rounds) t target q i f d = elim (alloc-suc rounds t target) [
  | inr (_, _, e) ↦ rw e (λ x. cc)
  | inl (taken, e) ↦
      let ne = IsTaken-IsFree t t.next_port q taken f in
      let f' : IsFree (skip t) q = (f.0, f.1, f.2, entry_of-skip (mapped_key q) t ∙ f.3) in
      rw e (
        alloc_finds rounds (skip t) target q (skip-Inv t i) f'
          (omega (arith, distance-advance t.next_port q i.next_low i.next_high f.0 f.1 ne)))
]

-- `Set` hands out the port that the connection already has; or it takes a free port of the pool and
-- leaves every other entry as it was; and it gives up, changing no entry, when the pool has no free
-- port.
abbrev pub SetResult : ConnTracker → ConnTarget → ConnTracker × Option ℕ → Type 0
SetResult t target (t', none) =
    ((k : ConnKey) → entry_of k t' ≡ entry_of k t) × ((q : ℕ) → ¬ IsFree t q)
SetResult t target (t', some port) =
    ((t' ≡ t) × (mapped_of (target_key target) t ≡ some (mapped_key port)))
    ⊎ ((mapped_of (target_key target) t ≡ none) × Allocated t t' target port)

-- The connection's link leads to an entry, so `Set` finds its port again.
pub set_target-known :
    (t : ConnTracker) (target : ConnTarget) (k : ConnKey)
    → Inv t
    → mapped_of (target_key target) t ≡ some k
    → (k ≡ mapped_key k.src_port) × (set_target t target ≡ (t, some k.src_port))
unfolding set_target
set_target-known t target k i e =
    let (v, held, _) = i.links.live (target_key target) k e in
    let pooled = i.links.in_pool k v held in
    (cc (pooled.is_key, ap (λ (c : ConnKey). c.src_port) pooled.is_key), rw (e, held, set_target))

set_target-new :
    (t : ConnTracker) (target : ConnTarget)
    → mapped_of (target_key target) t ≡ none
    → set_target t target ≡ alloc pool_rounds t target
unfolding set_target
set_target-new t target e = rw (e, set_target)

AllocPost-SetResult :
    (t : ConnTracker) (target : ConnTarget) (r : ConnTracker × Option ℕ)
    → mapped_of (target_key target) t ≡ none
    → (r.1 ≡ none → (q : ℕ) → ¬ IsFree t q)
    → AllocPost t target r
    → Inv r.0 × SetResult t target r
AllocPost-SetResult t target (t', none) fresh full (i, same) = (i, (same.0, full refl))
AllocPost-SetResult t target (t', some port) fresh full (i, a) = (i, inr (fresh, a))

alloc_full :
    (t : ConnTracker) (target : ConnTarget)
    → Inv t
    → (alloc pool_rounds t target).1 ≡ none
    → (q : ℕ) → ¬ IsFree t q
alloc_full t target i e q f = alloc_finds pool_rounds t target q i f (ground arith) e

-- `Set` keeps the tracker's invariant, and returns the port that the connection already has, with
-- no change; or else a free port of the pool, whose entry it adds and nothing else; or else none,
-- with no entry changed, and then the pool has no free port.
pub set_target_lem :
    (t : ConnTracker) (target : ConnTarget)
    → Inv t
    → Inv (set_target t target).0 × SetResult t target (set_target t target)
set_target_lem t target i = elim (Option-cases (mapped_of (target_key target) t)) [
  | inl fresh ↦ rw (set_target-new t target fresh) (
      AllocPost-SetResult t target _ fresh (alloc_full t target i)
        (alloc_lem pool_rounds t target i fresh))
  | inr (k, e) ↦
      let (is_key, same) = set_target-known t target k i e in
      rw same (i, inl (refl, e ∙ ap some is_key))
]
