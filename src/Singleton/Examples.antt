-- ===== src/Singleton/Examples.antt =====
-- singleton.go: a second instance while the first one runs.
use go_pass.Base.{refl, [], Option, none, some, arith, Text, Bytes}
use go_pass.Singleton.{Creation, already_exists}
use go_pass.Singleton.Processes.{System, IsDocumented, acquired_by, Reachable, at_first, acquires}

abbrev pub utf16 : Text → Option Bytes
utf16 t = some t

abbrev at_start : System
at_start = record { open_handles = []; handle_of = λ p. 0 }

-- The first instance gets a new object, the second one a handle of the same object with an error.
abbrev fresh_object : Bytes → Creation
fresh_object name = record { handle = 4; failure = none }

abbrev pub same_object : Bytes → Creation
same_object name = record { handle = 8; failure = some already_exists }

abbrev pub one_runs : System
one_runs = (acquired_by utf16 1 fresh_object at_start).0

fresh-IsDocumented : (name : Bytes) → IsDocumented at_start (fresh_object name)
fresh-IsDocumented name e = (refl, λ z. omega (arith, z))

pub same-IsDocumented : (name : Bytes) → IsDocumented one_runs (same_object name)
same-IsDocumented name e = cc e

pub one_runs-Reachable : Reachable utf16 one_runs
one_runs-Reachable = acquires 1 fresh_object at_start fresh-IsDocumented at_first
