-- ===== src/Api/Examples.antt =====
-- api.go: requests to the settings page.
use go_pass.Base.{
  ℕ, ◌≡◌, ◌⊎◌, refl, Bool, true, false, List, [], ◌∷◌, Option, none, some, ℤ, pos, Text, Bytes,
  codes,
}
use go_pass.Config.{default_config}
use go_pass.Engine.Control.Examples.{system, running}
use go_pass.Api.{Web, Request, post, guard, served, cross_origin}
use go_pass.Api.Handlers.{serve}
use go_pass.Api.Guarded.{IsLocal, Names, IsSameOrigin, guard_lem}
use go_pass.Api.Kept.{IsUsable, serve-IsUsable}

-- Hosts come without a port.
abbrev web : Web
web = record {
  split_host_port = λ t. none;
  url_host = λ t. some (codes "evil.example");
  system = system;
}

abbrev request : Request
request = record {
  path = codes "/api/upstream";
  method = post;
  origin = [];
  host_header = codes "LocalHost";
  upstream = some (record { type = codes "http"; address = codes "10.0.0.7"; port = pos 8080 });
  performance = none;
  process = none;
}

foreign_page :
    guard web (codes "127.0.0.1") (record request { origin = codes "http://evil.example" })
    ≡ cross_origin
unfolding guard go_pass.Base.Text-discrete go_pass.Base.ℕ_discrete
foreign_page = refl

served_here : guard web (codes "127.0.0.1") request ≡ served
unfolding guard go_pass.Base.Text-discrete go_pass.Base.ℕ_discrete
served_here = refl

guard_lem_example :
    ((name : Text) × Names web request.host_header name × IsLocal web (codes "127.0.0.1") name)
    × ((request.origin ≡ []) ⊎ IsSameOrigin web request)
guard_lem_example = guard_lem web (codes "127.0.0.1") request refl served_here

running-IsUsable : IsUsable running.cfg
unfolding default_config go_pass.Base.Text-discrete go_pass.Base.ℕ_discrete
running-IsUsable = record {
  dialable = record { known = refl; addressed = refl; port_low = refl; port_high = refl };
  bounded = record { low = refl; high = refl };
}

serve-IsUsable_example :
    IsUsable (serve web (codes "127.0.0.1") (codes "config.json") request running []).0.0.cfg
serve-IsUsable_example =
    serve-IsUsable web (codes "config.json") request (codes "127.0.0.1") running [] running-IsUsable
