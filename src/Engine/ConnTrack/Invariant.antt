-- ===== src/Engine/ConnTrack/Invariant.antt =====
-- conntrack.go: the invariant of the two maps of the tracker, with one entry added or taken away.
use go_pass.Base.{
  ℕ, ◌≤◌, ◌≡◌, ◌≢◌, sym, none, some, arith, ite, lookup, Unique, lookup-insert, lookup-erase,
  insert-Unique, erase-Unique,
}
use go_pass.Engine.ConnTrack.{
  ConnKey, OrigFlowKey, ConnTarget, ConnTracker, ConnKey-discrete, OrigFlowKey-discrete,
  mapped_port_min, mapped_port_max, mapped_key, target_key, entry_of, mapped_of, add_conn,
  drop_orig, drop_entry, unlink,
}

-- A key of `entries`: a port of the pool that is not the TProxy's own, on the loopback address.
pub record IsMapped (reserved : ℕ) (k : ConnKey) : Type 0 where
  pub port : ℕ
  pub is_key : k ≡ mapped_key port
  pub low : mapped_port_min ≤ port
  pub high : port ≤ mapped_port_max
  pub not_reserved : port ≢ reserved

-- `entries` and `orig` are inverse to one another, and `active` names entries only.
pub record IsLinked (t : ConnTracker) : Type 0 where
  pub unique : Unique ConnKey-discrete t.entries
  pub linked :
      (k : ConnKey) (v : ConnTarget) → entry_of k t ≡ some v → mapped_of (target_key v) t ≡ some k
  pub live :
      (o : OrigFlowKey) (k : ConnKey)
      → mapped_of o t ≡ some k
      → (v : ConnTarget) × (entry_of k t ≡ some v) × (target_key v ≡ o)
  pub in_pool : (k : ConnKey) (v : ConnTarget) → entry_of k t ≡ some v → IsMapped t.reserved_port k
  pub active_live :
      (k : ConnKey)
      → lookup ConnKey-discrete k t.active ≡ some tt
      → (v : ConnTarget) × (entry_of k t ≡ some v)

pub record Inv (t : ConnTracker) : Type 0 where
  pub links : IsLinked t
  pub next_low : mapped_port_min ≤ t.next_port
  pub next_high : t.next_port ≤ mapped_port_max

pub entry_of-add_conn :
    (k : ConnKey) (port : ℕ) (v : ConnTarget) (t : ConnTracker)
    → entry_of k (add_conn port v t)
      ≡ ite (ConnKey-discrete (mapped_key port) k) (some v) (entry_of k t)
unfolding entry_of
entry_of-add_conn k port v t = lookup-insert ConnKey-discrete k (mapped_key port) v t.entries

pub mapped_of-add_conn :
    (o : OrigFlowKey) (port : ℕ) (v : ConnTarget) (t : ConnTracker)
    → mapped_of o (add_conn port v t)
      ≡ ite (OrigFlowKey-discrete (target_key v) o) (some (mapped_key port)) (mapped_of o t)
unfolding mapped_of
mapped_of-add_conn o port v t =
    lookup-insert OrigFlowKey-discrete o (target_key v) (mapped_key port) t.orig

module _ (t : ConnTracker) (port : ℕ) (v : ConnTarget) (i : IsLinked t)
    (free : entry_of (mapped_key port) t ≡ none) (fresh : mapped_of (target_key v) t ≡ none)
    (low : mapped_port_min ≤ port) (high : port ≤ mapped_port_max)
    (other : port ≢ t.reserved_port) where
  add_conn-linked :
      (k : ConnKey) (w : ConnTarget)
      → entry_of k (add_conn port v t) ≡ some w
      → mapped_of (target_key w) (add_conn port v t) ≡ some k
  add_conn-linked k w e = ground (
    arith,
    entry_of-add_conn k port v t,
    mapped_of-add_conn (target_key w) port v t,
    i.linked k w,
  )

  -- An entry that was there is still there: its key is not the free one.
  entry_of-kept :
      (k : ConnKey) (w : ConnTarget)
      → entry_of k t ≡ some w
      → entry_of k (add_conn port v t) ≡ some w
  entry_of-kept k w e = ground (arith, entry_of-add_conn k port v t)

  entry_of-new : (k : ConnKey) → mapped_key port ≡ k → entry_of k (add_conn port v t) ≡ some v
  entry_of-new k e = ground (arith, entry_of-add_conn k port v t)

  add_conn-live :
      (o : OrigFlowKey) (k : ConnKey)
      → mapped_of o (add_conn port v t) ≡ some k
      → (w : ConnTarget) × (entry_of k (add_conn port v t) ≡ some w) × (target_key w ≡ o)
  add_conn-live o k e = elim (OrigFlowKey-discrete (target_key v) o) [
    | yes same ↦
        let is_port : mapped_key port ≡ k = ground (arith, mapped_of-add_conn o port v t) in
        (v, entry_of-new k is_port, same)
    | no differs ↦
        let (w, e', same) = i.live o k (ground (arith, mapped_of-add_conn o port v t)) in
        (w, entry_of-kept k w e', same)
  ]

  add_conn-in_pool :
      (k : ConnKey) (w : ConnTarget)
      → entry_of k (add_conn port v t) ≡ some w
      → IsMapped t.reserved_port k
  add_conn-in_pool k w e = elim (ConnKey-discrete (mapped_key port) k) [
    | yes same ↦ record {
      port = port;
      is_key = sym same;
      low = low;
      high = high;
      not_reserved = other;
    }
    | no differs ↦ i.in_pool k w (ground (arith, entry_of-add_conn k port v t))
  ]

  pub add_conn-IsLinked : IsLinked (add_conn port v t)
  add_conn-IsLinked = record {
    unique = insert-Unique ConnKey-discrete (mapped_key port) v t.entries i.unique;
    linked = add_conn-linked;
    live = add_conn-live;
    in_pool = add_conn-in_pool;
    active_live = λ k a. let (w, e) = i.active_live k a in (w, entry_of-kept k w e);
  }

-- Removing the entry `(k, v)` with its link, as `Delete` and the GC do.
abbrev pub remove_conn : ConnKey → ConnTarget → ConnTracker → ConnTracker
remove_conn k v t = drop_entry k (drop_orig (target_key v) t)

pub entry_of-remove_conn :
    (j k : ConnKey) (v : ConnTarget) (t : ConnTracker)
    → entry_of j (remove_conn k v t) ≡ ite (ConnKey-discrete k j) none (entry_of j t)
unfolding entry_of
entry_of-remove_conn j k v t = lookup-erase ConnKey-discrete j k t.entries

pub mapped_of-remove_conn :
    (o : OrigFlowKey) (k : ConnKey) (v : ConnTarget) (t : ConnTracker)
    → mapped_of o (remove_conn k v t)
      ≡ ite (OrigFlowKey-discrete (target_key v) o) none (mapped_of o t)
unfolding mapped_of
mapped_of-remove_conn o k v t = lookup-erase OrigFlowKey-discrete o (target_key v) t.orig

module _ (t : ConnTracker) (k : ConnKey) (v : ConnTarget) (i : IsLinked t)
    (held : entry_of k t ≡ some v) (idle : lookup ConnKey-discrete k t.active ≡ none) where
  -- The entry's link is there, and leads to it, so `unlink` drops it.
  pub unlink-drop_orig : unlink (target_key v) k t ≡ drop_orig (target_key v) t
  unfolding unlink
  unlink-drop_orig = ground (arith, i.linked k v held)

  remove_conn-linked :
      (j : ConnKey) (w : ConnTarget)
      → entry_of j (remove_conn k v t) ≡ some w
      → mapped_of (target_key w) (remove_conn k v t) ≡ some j
  remove_conn-linked j w e = ground (
    arith,
    entry_of-remove_conn j k v t,
    mapped_of-remove_conn (target_key w) k v t,
    i.linked j w,
    i.linked k v held,
  )

  remove_conn-live :
      (o : OrigFlowKey) (j : ConnKey)
      → mapped_of o (remove_conn k v t) ≡ some j
      → (w : ConnTarget) × (entry_of j (remove_conn k v t) ≡ some w) × (target_key w ≡ o)
  remove_conn-live o j e =
      let (w, e', same) = i.live o j (ground (arith, mapped_of-remove_conn o k v t)) in
      (w, ground (arith, entry_of-remove_conn j k v t, mapped_of-remove_conn o k v t), same)

  remove_conn-active :
      (j : ConnKey)
      → lookup ConnKey-discrete j t.active ≡ some tt
      → (w : ConnTarget) × (entry_of j (remove_conn k v t) ≡ some w)
  remove_conn-active j a =
      let (w, e) = i.active_live j a in (w, ground (arith, entry_of-remove_conn j k v t))

  pub remove_conn-IsLinked : IsLinked (remove_conn k v t)
  remove_conn-IsLinked = record {
    unique = erase-Unique ConnKey-discrete k t.entries i.unique;
    linked = remove_conn-linked;
    live = remove_conn-live;
    in_pool = λ j w e. i.in_pool j w (ground (arith, entry_of-remove_conn j k v t));
    active_live = remove_conn-active;
  }
