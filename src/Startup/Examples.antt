-- ===== src/Startup/Examples.antt =====
-- main.go: a second instance, and a configuration that is no JSON.
use go_pass.Base.{
  ℕ, ◌≡◌, ◌≢◌, ◌⊎◌, refl, ap, arith, Bool, true, false, List, [], ◌∷◌, Option, none, some, Text,
  Text-discrete, Bytes, codes, length, lookup,
}
use go_pass.Config.{Files, load}
use go_pass.Config.Examples.{busy, print}
use go_pass.Engine.Lifecycle.Examples.{machine}
use go_pass.Singleton.Exclusion.{Alone}
use go_pass.Singleton.Examples.{utf16, same_object, one_runs, same-IsDocumented, one_runs-Reachable}
use go_pass.Startup.{Surroundings, read_file, load_config, main}
use go_pass.Startup.Loading.{IsKept, load_config-IsKept}
use go_pass.Startup.Running.{Untouched, main-Alone}

abbrev path : Text
path = codes "config.json"

abbrev files : Files
files = (path, codes "old") ∷ []

-- Nothing can be decoded, and every file operation works.
abbrev surroundings : Surroundings
surroundings = record {
  decode = λ input c. none;
  print = print;
  read_ok = true;
  is_dir = false;
  rename_ok = true;
  disk = record busy { rename_ok = true };
}

load_config-IsKept_example :
    IsKept path
      (load_config surroundings path files).1
      path
      (codes "old")
      (load (read_file surroundings files) surroundings.decode path)
unfolding lookup Text-discrete go_pass.Base.ℕ_discrete
load_config-IsKept_example =
    load_config-IsKept surroundings path files path (codes "old")
      (refl, λ e. omega (arith, ap length e)) (refl, λ e. omega (arith, ap length e))
      (λ e. omega (arith, ap length e)) refl

main-Alone_example :
    let after =
      main Text utf16 2 same_object surroundings machine (λ addr. true) path one_runs files in
    Alone 2 after.0 ⊎ Untouched one_runs after.0 files after.1.1.0 after.1.0
main-Alone_example =
    main-Alone Text utf16 2 same_object surroundings machine (λ addr. true) path one_runs files
      same-IsDocumented one_runs-Reachable
