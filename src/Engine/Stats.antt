-- ===== src/Engine/Stats.antt =====
-- internal/engine/engine.go: the connections that the status page counts. What the info of a connection
-- holds beside its id is its target. The process id, a constant, is left out.
pub mod Counted
use go_pass.Base.{
  ℕ, suc, ◌-◌, Bool, true, false, List, [], Option, none, some, ltb, if◌then◌else◌, Text,
  Text-discrete, lookup, insert, erase,
}

pub record Stats : Type 0 where
  pub connections : ℕ
  pub active : List (Text × Text)

unfoldable pub add_active_conn : Text → Text → Stats → Stats
add_active_conn id target s = record {
  connections = elim (lookup Text-discrete id s.active) [
    | none ↦ suc s.connections
    | some _ ↦ s.connections
  ];
  active = insert Text-discrete id target s.active;
}

unfoldable pub remove_active_conn : Text → Stats → Stats
remove_active_conn id s = elim (lookup Text-discrete id s.active) [
  | none ↦ s
  | some _ ↦ record {
    connections = if ltb 0 s.connections then s.connections - 1 else s.connections;
    active = erase Text-discrete id s.active;
  }
]
