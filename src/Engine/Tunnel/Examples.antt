-- ===== src/Engine/Tunnel/Examples.antt =====
-- tproxy.go: a diverted connection that is carried to its target.
use go_pass.Base.{refl, true, [], some, codes}
use go_pass.Engine.ConnTrack.{mapped_key}
use go_pass.Engine.ConnTrack.Examples.{tracker1, tracker1-Inv}
use go_pass.Engine.Tunnel.{Conn, Shared, Upstream, handle_conn}
use go_pass.Engine.Tunnel.Carried.{IsSound, Handles, handle_conn_lem}

abbrev shared : Shared
shared = record { tracker = tracker1; stats = record { connections = 0; active = [] } }

abbrev open_upstream : Upstream
open_upstream = record { dials = λ t. true; accepts = λ p. true }

-- No hello of TLS comes.
abbrev client : Conn
client = record {
  remote_addr = some ((mapped_key 32768).src_ip, (mapped_key 32768).src_port);
  arriving = codes "GET /";
  later = codes " HTTP/1.1";
}

shared-IsSound : IsSound shared
shared-IsSound = (tracker1-Inv, record { unique = tt; counted = refl })

handle_conn_lem_example : Handles client (handle_conn open_upstream client (λ sh. sh) shared)
handle_conn_lem_example =
    handle_conn_lem open_upstream client (λ sh. sh) (λ sh sound. sound) shared shared-IsSound
