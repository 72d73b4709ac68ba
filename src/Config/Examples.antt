-- ===== src/Config/Examples.antt =====
-- config.go: a configuration with almost nothing in it, and a save that fails half way.
use go_pass.Base.{
  ℕ, ◌≡◌, ◌≢◌, ◌⊎◌, refl, Bool, true, false, List, [], ◌∷◌, Option, none, some, ℤ, pos, Text,
  Text-discrete, Bytes, codes, lookup,
}
use go_pass.Config.{Config, Files, Disk, zero_config, default_config, with_defaults, save}
use go_pass.Config.Defaults.{IsComplete, with_defaults_lem}
use go_pass.Config.Saving.{IsLeft, saved, save_lem}

defaults_of_zero : with_defaults zero_config ≡ default_config
unfolding lookup Text-discrete go_pass.Base.ℕ_discrete default_config with_defaults
defaults_of_zero = refl

with_defaults_lem_example :
    IsComplete (with_defaults zero_config)
    × (with_defaults (with_defaults zero_config) ≡ with_defaults zero_config)
with_defaults_lem_example = with_defaults_lem zero_config

abbrev path : Text
path = codes "config.json"

abbrev temp : Text
temp = codes ".gopass-config-1.json"

abbrev files : Files
files = (path, codes "old") ∷ []

-- The rename fails.
abbrev pub busy : Disk
busy = record {
  temp = some temp;
  written = λ p. p;
  write_ok = true;
  close_ok = true;
  rename_ok = false;
  remove_ok = true;
}

abbrev pub print : Config → Option Bytes
print c = some (codes "new")

temp-ne-path : temp ≢ path
temp-ne-path e = cc e

save_lem_example :
    (lookup Text-discrete path (save print busy default_config path files).0
      ≡ saved (print default_config) path files path (save print busy default_config path files).1)
    ⊎ IsLeft busy path (save print busy default_config path files).1
unfolding lookup Text-discrete go_pass.Base.ℕ_discrete
save_lem_example = save_lem print busy default_config path files path (refl, temp-ne-path)
