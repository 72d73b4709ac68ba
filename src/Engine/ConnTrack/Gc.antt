-- ===== src/Engine/ConnTrack/Gc.antt =====
-- conntrack.go, `startGC`: the garbage collection.
use go_pass.Base.{
  ℕ, ◌+◌, ◌*◌, ◌≤◌, ltb, ◌∙◌, ◌≡◌, refl, ap, Bool, true, false, not, List, [], ◌∷◌, Option, none,
  some, inl, inr, arith, if◌then◌else◌, Bool-cases, Option-cases, All, lookup, Unique,
  Unique-IsHeld, kept,
}
use go_pass.Engine.ConnTrack.{
  ConnKey, ConnTarget, ConnTracker, ConnKey-discrete, entry_of, expired, gc_entry, gc_loop, gc_tick,
}
use go_pass.Engine.ConnTrack.Invariant.{
  IsLinked, Inv, remove_conn, entry_of-remove_conn, remove_conn-IsLinked, unlink-drop_orig,
}

-- Does a collection keep the entry `(k, v)`? An active one always.
abbrev pub keeps : ℕ → ConnTracker → ConnKey → ConnTarget → Bool
keeps now t k v = elim (lookup ConnKey-discrete k t.active) [
  | some _ ↦ true
  | none ↦ not (expired now t v)
]

module _ (now : ℕ) (t : ConnTracker) (k : ConnKey) (v : ConnTarget) (i : IsLinked t)
    (held : entry_of k t ≡ some v) where
  gc_entry_keep : keeps now t k v ≡ true → gc_entry now t (k, v) ≡ t
  unfolding gc_entry
  gc_entry_keep h = ground arith

  gc_entry_drop :
      keeps now t k v ≡ false
      → (lookup ConnKey-discrete k t.active ≡ none) × (gc_entry now t (k, v) ≡ remove_conn k v t)
  unfolding gc_entry
  gc_entry_drop h = elim (Option-cases (lookup ConnKey-discrete k t.active)) [
    | inr (_, a) ↦ ground arith
    | inl idle ↦ (idle, ground (arith, unlink-drop_orig t k v i held idle))
  ]

-- The entries of the loop are those of the tracker, each met once.
abbrev Held : ConnTracker → List (ConnKey × ConnTarget) → Type 0
Held t es = All (λ (e : ConnKey × ConnTarget). entry_of e.0 t ≡ some e.1) es

Held-remove_conn :
    (t : ConnTracker) (k : ConnKey) (v : ConnTarget) (es : List (ConnKey × ConnTarget))
    → lookup ConnKey-discrete k es ≡ none
    → Held t es
    → Held (remove_conn k v t) es
unfolding lookup
Held-remove_conn t k v [] a h = tt
Held-remove_conn t k v (e ∷ es) a h =
    (ground (arith, entry_of-remove_conn e.0 k v t), Held-remove_conn t k v es (ground arith) h.1)

abbrev loop_result : ℕ → ConnTracker → ConnKey → Option ConnTarget → Option ConnTarget
loop_result now t k none = entry_of k t
loop_result now t k (some v) = if keeps now t k v then some v else none

abbrev GcPost : ℕ → ConnTracker → List (ConnKey × ConnTarget) → ConnTracker → Type 0
GcPost now t es t' =
    IsLinked t'
    × (t'.next_port ≡ t.next_port)
    × ((k : ConnKey) → entry_of k t' ≡ loop_result now t k (lookup ConnKey-discrete k es))

-- The two ways in which a round of the loop ends.
gc_loop-cons :
    (now : ℕ) (e : ConnKey × ConnTarget) (es : List (ConnKey × ConnTarget)) (t t' : ConnTracker)
    → gc_entry now t e ≡ t'
    → gc_loop now t (e ∷ es) ≡ gc_loop now t' es
unfolding gc_loop
gc_loop-cons now e es t t' h = ap (λ s. gc_loop now s es) h

gc_loop_lem :
    (now : ℕ) (es : List (ConnKey × ConnTarget)) (t : ConnTracker)
    → IsLinked t
    → Unique ConnKey-discrete es
    → Held t es
    → GcPost now t es (gc_loop now t es)
unfolding lookup
gc_loop_lem now [] t i u h = unfold gc_loop in (i, refl, λ k. refl)
gc_loop_lem now ((k, v) ∷ es) t i u h = elim (Bool-cases (keeps now t k v)) [
  | inl stays ↦
      let e = gc_loop-cons now (k, v) es t t (gc_entry_keep now t k v i h.0 stays) in
      let (i', n, r) = gc_loop_lem now es t i u.1 h.1 in
      rw e (i', n, λ k'. ground (arith, r k', u.0, h.0))
  | inr goes ↦
      let (idle, e) = gc_entry_drop now t k v i h.0 goes in
      let i₁ = remove_conn-IsLinked t k v i h.0 idle in
      let (i', n, r) =
        gc_loop_lem now es (remove_conn k v t) i₁ u.1 (Held-remove_conn t k v es u.0 h.1) in
      rw (gc_loop-cons now (k, v) es t _ e)
        (i', n, λ k'. ground (arith, r k', u.0, entry_of-remove_conn k' k v t))
]

pub gc_tick-closed : (now : ℕ) (t : ConnTracker) → t.closed ≡ true → gc_tick now t ≡ t
unfolding gc_tick
gc_tick-closed now t c = rw c

gc_tick-open :
    (now : ℕ) (t : ConnTracker) → t.closed ≡ false → gc_tick now t ≡ gc_loop now t t.entries
unfolding gc_tick
gc_tick-open now t c = simp c

-- The entry of a key after a collection: an active one stays, and another one while its age is not
-- above the TTL's seconds.
abbrev pub survivor : ℕ → ConnTracker → ConnKey → Option ConnTarget → Option ConnTarget
survivor now t k none = none
survivor now t k (some v) = elim (lookup ConnKey-discrete k t.active) [
  | some _ ↦ some v
  | none ↦ if ltb (v.created_at + t.ttl * 1000000000) now then none else some v
]

expired-small :
    (now : ℕ) (t : ConnTracker) (v : ConnTarget)
    → t.ttl ≤ 9223372036
    → expired now t v ≡ ltb (v.created_at + t.ttl * 1000000000) now
expired-small now t v small = ground arith

survivor-kept :
    (now : ℕ) (t : ConnTracker) (k : ConnKey) (o : Option ConnTarget)
    → t.ttl ≤ 9223372036
    → kept (keeps now t) k o ≡ survivor now t k o
survivor-kept now t k none small = refl
survivor-kept now t k (some v) small = ground (arith, expired-small now t v small)

gc_tick-kept :
    (now : ℕ) (t : ConnTracker)
    → Inv t
    → t.closed ≡ false
    → Inv (gc_tick now t)
      × ((k : ConnKey) → entry_of k (gc_tick now t) ≡ kept (keeps now t) k (entry_of k t))
gc_tick-kept now t i c =
    let (i', n, r) = collected in
    rw (gc_tick-open now t c) (
      record { links = i'; next_low = rw n i.next_low; next_high = rw n i.next_high },
      λ k. ground (arith, r k, in_entries k),
    )
  where
    collected : GcPost now t t.entries (gc_loop now t t.entries)
    collected =
        unfold entry_of in
        gc_loop_lem now t.entries t i.links i.links.unique
          (Unique-IsHeld ConnKey-discrete t.entries i.links.unique)

    in_entries : (k : ConnKey) → lookup ConnKey-discrete k t.entries ≡ entry_of k t
    in_entries k = unfold entry_of in refl

-- Whatever the TTL, a collection keeps the invariant.
pub gc_tick-Inv : (now : ℕ) (t : ConnTracker) → Inv t → Inv (gc_tick now t)
gc_tick-Inv now t i = elim (Bool-cases t.closed) [
  | inl c ↦ rw (gc_tick-closed now t c) i
  | inr c ↦ (gc_tick-kept now t i c).0
]

-- On a valid tracker that is open, with a TTL whose nanoseconds fit an int64 (9223372036 seconds at most),
-- a collection keeps the invariant, and of the entries it deletes exactly those that are not active and
-- older than the TTL's seconds.
pub gc_tick_lem :
    (now : ℕ) (t : ConnTracker)
    → Inv t
    → t.closed ≡ false
    → t.ttl ≤ 9223372036
    → Inv (gc_tick now t)
      × ((k : ConnKey) → entry_of k (gc_tick now t) ≡ survivor now t k (entry_of k t))
gc_tick_lem now t i c small = (
  gc_tick-Inv now t i,
  λ k. (gc_tick-kept now t i c).1 k ∙ survivor-kept now t k (entry_of k t) small,
)
