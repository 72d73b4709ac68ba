-- ===== src/Api/Status/Examples.antt =====
-- api.go, `handleStatus`: three connections of two programs.
use go_pass.Base.{ℕ, refl, List, [], ◌∷◌, Text, codes}
use go_pass.Process.Flows.{Entry}
use go_pass.Engine.ConnTrack.Examples.{tracker0}
use go_pass.Engine.FlowPolicy.{new_flow_policies}
use go_pass.Engine.Capture.{running}
use go_pass.Engine.Control.Examples
use go_pass.Engine.Intercept.{is_whitelisted}
use go_pass.Engine.Intercept.Examples.{env_of, browser, world_of}
use go_pass.Engine.Stats.{Stats}
use go_pass.Api.{get_method}
use go_pass.Api.Status.{handle_status}
use go_pass.Api.Status.Totals.{ShowsIn, handle_status_lem}

abbrev connection : ℕ → ℕ → Text → Entry
connection pid port name = record {
  flow = record { local_ip = 1; local_port = port; remote_ip = 0x22d8b85d; remote_port = 443 };
  pid = pid;
  name = name;
}

abbrev entries : List Entry
entries =
    connection 7 51000 browser
    ∷ connection 8 51001 (codes "other.exe")
    ∷ connection 7 51002 browser
    ∷ []

abbrev stats : Stats
stats = record { connections = 2; active = [] }

handle_status_lem_example :
    ShowsIn
      (is_whitelisted (env_of browser) (world_of tracker0 new_flow_policies))
      entries
      running
      stats
      (handle_status (env_of browser) entries stats running get_method Examples.running)
handle_status_lem_example =
    handle_status_lem (env_of browser) entries stats running Examples.running
      (world_of tracker0 new_flow_policies) refl
