-- ===== src/Engine/Stats/Counted.antt =====
-- engine.go: the count of connections is their number.
use go_pass.Base.{
  suc, ◌≡◌, sym, ap, ◌∙◌, List, [], ◌∷◌, none, some, inl, inr, arith, Option-cases, Text,
  Text-discrete, length, lookup, insert, erase, erase_absent, Unique, insert-Unique, erase-Unique,
}
use go_pass.Engine.Stats.{Stats, add_active_conn, remove_active_conn}

pub record IsCounted (s : Stats) : Type 0 where
  pub unique : Unique Text-discrete s.active
  pub counted : s.connections ≡ length s.active

absent :
    (id key : Text) (m : List (Text × Text))
    → key ≡ id
    → lookup Text-discrete key m ≡ none
    → lookup Text-discrete id m ≡ none
absent id key m same h = cc h

-- One fewer, where the connection is there.
length-erase :
    (id : Text) (m : List (Text × Text)) (target : Text)
    → Unique Text-discrete m
    → lookup Text-discrete id m ≡ some target
    → suc (length (erase Text-discrete id m)) ≡ length m
unfolding lookup erase
length-erase id [] target u h = cc h
length-erase id (e ∷ m) target u h = elim (Text-discrete e.0 id) [
  | yes same ↦
      let gone = erase_absent Text-discrete id m (absent id e.0 m same u.0) in
      ground (arith, ap length gone, same)
  | no differs ↦ ground (arith, length-erase id m target u.1)
]

-- Adding a connection, also one that is there already, and removing one, also one that is not there, keep each
-- id once and the count the number of ids.
pub add_active_conn-IsCounted :
    (id target : Text) (s : Stats)
    → IsCounted s
    → IsCounted (add_active_conn id target s) × IsCounted (remove_active_conn id s)
unfolding add_active_conn remove_active_conn insert
add_active_conn-IsCounted id target s c = (
  record {
    unique = insert-Unique Text-discrete id target s.active c.unique;
    counted = elim (Option-cases (lookup Text-discrete id s.active)) [
      | inl new ↦
          rw (add_active_conn, new, erase_absent Text-discrete id s.active new) (ap suc c.counted)
      | inr (old, e) ↦
          rw (add_active_conn, e) (c.counted ∙ sym (length-erase id s.active old c.unique e))
    ];
  },
  elim (Option-cases (lookup Text-discrete id s.active)) [
    | inl absent_id ↦ rw (remove_active_conn, absent_id) c
    | inr (old, e) ↦
        rw (remove_active_conn, e)
          (record {
            unique = erase-Unique Text-discrete id s.active c.unique;
            counted = ground (arith, length-erase id s.active old c.unique e, c.counted);
          })
  ],
)
