-- ===== src/Engine/ConnTrack/Remove.antt =====
-- conntrack.go: `Delete` and `Activate`.
use go_pass.Base.{
  ◌≡◌, refl, sym, ap, ◌∙◌, none, some, inl, inr, arith, ite, Option-cases, lookup, erase, insert,
  erase_absent, lookup-insert, lookup-erase,
}
use go_pass.Engine.ConnTrack.{
  ConnKey, ConnTarget, ConnTracker, ConnKey-discrete, entry_of, mapped_of, activate, delete,
}
use go_pass.Engine.ConnTrack.Invariant.{
  IsLinked, Inv, remove_conn, entry_of-remove_conn, remove_conn-IsLinked, unlink-drop_orig,
}

-- The tracker with an entry taken off the active set.
deactivate : ConnKey → ConnTracker → ConnTracker
deactivate k t = record t { active = erase ConnKey-discrete k t.active }

deactivate-IsLinked : (k : ConnKey) (t : ConnTracker) → IsLinked t → IsLinked (deactivate k t)
unfolding entry_of mapped_of deactivate
deactivate-IsLinked k t i = record {
  unique = i.unique;
  linked = i.linked;
  live = i.live;
  in_pool = i.in_pool;
  active_live = λ j a. i.active_live j (ground (arith, lookup-erase ConnKey-discrete j k t.active));
}

entry_of-deactivate : (j k : ConnKey) (t : ConnTracker) → entry_of j (deactivate k t) ≡ entry_of j t
unfolding entry_of deactivate
entry_of-deactivate j k t = refl

deactivate_idle :
    (k : ConnKey) (t : ConnTracker) → lookup ConnKey-discrete k (deactivate k t).active ≡ none
unfolding deactivate
deactivate_idle k t = ground (arith, lookup-erase ConnKey-discrete k k t.active)

delete_missing :
    (t : ConnTracker) (k : ConnKey)
    → entry_of k t ≡ none
    → delete t k.src_ip k.src_port ≡ deactivate k t
unfolding delete entry_of deactivate
delete_missing t k e = rw e (
    ap (λ es. record (deactivate k t) { entries = es })
      (erase_absent ConnKey-discrete k t.entries e))

delete_held :
    (t : ConnTracker) (k : ConnKey) (v : ConnTarget)
    → IsLinked t
    → entry_of k t ≡ some v
    → delete t k.src_ip k.src_port ≡ remove_conn k v (deactivate k t)
unfolding delete deactivate
delete_held t k v i e =
    let held = entry_of-deactivate k k t ∙ e in
    let link =
      unlink-drop_orig (deactivate k t) k v (deactivate-IsLinked k t i) held
        (deactivate_idle k t) in
    rw e (rw link refl)

-- `Delete` keeps the tracker's invariant, and takes away the entry under its key and no other.
pub delete_lem :
    (t : ConnTracker) (k : ConnKey)
    → Inv t
    → Inv (delete t k.src_ip k.src_port)
      × ((j : ConnKey)
          → entry_of j (delete t k.src_ip k.src_port)
            ≡ ite (ConnKey-discrete k j) none (entry_of j t))
delete_lem t k i = elim (Option-cases (entry_of k t)) [
  | inl e ↦ rw (delete_missing t k e) (
    unfold deactivate in
        record {
          links = deactivate-IsLinked k t i.links;
          next_low = i.next_low;
          next_high = i.next_high;
        },
    λ j. ground (arith, entry_of-deactivate j k t),
  )
  | inr (v, e) ↦
      let held = entry_of-deactivate k k t ∙ e in
      let i' = deactivate-IsLinked k t i.links in
      rw (delete_held t k v i.links e) (
        unfold deactivate in
            record {
              links = remove_conn-IsLinked (deactivate k t) k v i' held (deactivate_idle k t);
              next_low = i.next_low;
              next_high = i.next_high;
            },
        λ j. ground (arith, entry_of-remove_conn j k v (deactivate k t), entry_of-deactivate j k t),
      )
]

abbrev mark_active : ConnKey → ConnTracker → ConnTracker
mark_active k t = record t { active = insert ConnKey-discrete k tt t.active }

activate_missing :
    (t : ConnTracker) (k : ConnKey) → entry_of k t ≡ none → activate t k.src_ip k.src_port ≡ t
unfolding activate
activate_missing t k e = rw (e, activate)

activate_held :
    (t : ConnTracker) (k : ConnKey) (v : ConnTarget)
    → entry_of k t ≡ some v
    → activate t k.src_ip k.src_port ≡ mark_active k t
unfolding activate
activate_held t k v e = rw (e, activate)

entry_of-mark_active :
    (t : ConnTracker) (k j : ConnKey) → entry_of j (mark_active k t) ≡ entry_of j t
unfolding entry_of
entry_of-mark_active t k j = refl

mark_active-live :
    (t : ConnTracker) (k : ConnKey) (v : ConnTarget)
    → IsLinked t
    → entry_of k t ≡ some v
    → (j : ConnKey) → lookup ConnKey-discrete j (mark_active k t).active ≡ some tt
    → (w : ConnTarget) × (entry_of j t ≡ some w)
mark_active-live t k v i e j a = elim (ConnKey-discrete k j) [
  | yes same ↦ (v, ap (λ c. entry_of c t) (sym same) ∙ e)
  | no differs ↦ i.active_live j (ground (arith, lookup-insert ConnKey-discrete j k tt t.active))
]

mark_active-IsLinked :
    (t : ConnTracker) (k : ConnKey) (v : ConnTarget)
    → IsLinked t
    → entry_of k t ≡ some v
    → IsLinked (mark_active k t)
unfolding entry_of mapped_of
mark_active-IsLinked t k v i e = record {
  unique = i.unique;
  linked = i.linked;
  live = i.live;
  in_pool = i.in_pool;
  active_live = mark_active-live t k v i e;
}

-- `Activate` keeps the invariant and every entry.
pub activate_lem :
    (t : ConnTracker) (k : ConnKey)
    → Inv t
    → Inv (activate t k.src_ip k.src_port)
      × ((j : ConnKey) → entry_of j (activate t k.src_ip k.src_port) ≡ entry_of j t)
activate_lem t k i = elim (Option-cases (entry_of k t)) [
  | inl e ↦ rw (activate_missing t k e) (i, λ j. refl)
  | inr (v, e) ↦ rw (activate_held t k v e) (
    record {
      links = mark_active-IsLinked t k v i.links e;
      next_low = i.next_low;
      next_high = i.next_high;
    },
    entry_of-mark_active t k,
  )
]
