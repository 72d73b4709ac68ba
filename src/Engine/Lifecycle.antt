-- ===== src/Engine/Lifecycle.antt =====
-- internal/engine/engine.go: how an engine is made, started and stopped, with `NewTProxy` of tproxy.go, and
-- `NewInterceptor`, `preflight` and `Close` of windivert.go. A started engine runs `Accept` and the receive
-- loop.
pub mod Starting
pub mod Stopping
pub mod Examples
use go_pass.Base.{
  ℕ, ◌+◌, ◌-◌, ◌%◌, Bool, true, false, not, ◌&&◌, ◌||◌, List, [], ◌∷◌, ◌++◌, Option, none, some,
  ◌==◌, if◌then◌else◌, ℤ, pos, negsuc, above, Text, codes, text_eq,
}
use go_pass.Config.{Config, Server, PerformanceConfig, clamp_buffer_size}
use go_pass.Engine.ConnTrack
use go_pass.Engine.ConnTrack.{ConnTracker, new_conn_tracker}
use go_pass.Engine.FlowPolicy
use go_pass.Engine.FlowPolicy.{new_flow_policies}
use go_pass.Engine.Intercept.{World}
use go_pass.Engine.Capture.{State, running, stopped}
use go_pass.Engine.Control.{Host, TProxy, Engine, decimal, proxy_filter_ip, set_proxy_addr}
use go_pass.Engine.Upstream.{Settings, new_upstream_dialer}
use go_pass.Engine.Whitelist.{is_empty, set_whitelist}

-- What the code uses of the system besides: `net.SplitHostPort`, `strconv.Atoi`, whether a port can be listened
-- at, whether the process is elevated, and whether the driver opens.
pub record Machine : Type 0 where
  pub host : Host
  pub split_host_port : Text → Option (Text × Text)
  pub atoi : Text → Option ℤ
  pub listens : ℤ → Bool
  pub elevated : Bool
  pub opens : Bool

-- `uint16`
abbrev pub uint16 : ℤ → ℕ
uint16 (pos n) = n % 65536
uint16 (negsuc n) = 65535 - n % 65536

-- `NewConnTracker` takes every interval that is not positive for 30 seconds.
abbrev pub seconds : ℤ → ℕ
seconds (pos n) = n
seconds (negsuc n) = 0

-- The server that the loop of `Start` stops at.
abbrev pub known_type : Server → Bool
known_type s = text_eq s.type (codes "socks5") || text_eq s.type (codes "http")

abbrev pub upstream_server : List Server → Option Server
upstream_server [] = none
upstream_server (s ∷ rest) = if known_type s then some s else upstream_server rest

abbrev pub settings_from : Server → Settings
settings_from s = record {
  p_type = s.type;
  p_addr = s.address ++ (b':' ∷ decimal s.port);
  username = s.username;
  password = s.password;
}

unfoldable pub parse_addr : Machine → Text → Option (Text × ℤ)
parse_addr m addr = elim (m.split_host_port addr) [
  | none ↦ none
  | some (host, port) ↦ elim (m.atoi port) [
    | none ↦ none
    | some p ↦ if not (above p 0) || above p 65535 then none else some (host, p)
  ]
]

-- The whitelist of an absent list is empty.
abbrev pub listed : Option (List Text) → List Text
listed none = []
listed (some names) = names

unfoldable pub new_interceptor : Host → ConnTracker → Text → ℕ → List Text → World
unfolding new_flow_policies set_proxy_addr set_whitelist
new_interceptor h tracker proxy_ip tproxy_port whitelist =
    record (set_proxy_addr h proxy_ip (record {
      handle = false;
      tracker = tracker;
      proxy4 = none;
      tproxy_port = tproxy_port;
      whitelist = [];
      policies = new_flow_policies;
      queue = none;
      wire = [];
    })) { whitelist = set_whitelist h.strings whitelist }

pub data StartError : Type 0 where
  no_upstream invalid_upstream listen_failed not_elevated driver_failed : StartError

-- `preflight`, which closes the handle that it opened.
abbrev pub preflight : Machine → Option StartError
preflight m =
    if not m.elevated then some not_elevated else if not m.opens then some driver_failed else none

module _ {S : Type 0} where
  -- An engine with the tracker that it made. The packet path has the tracker from here, shared by
  -- pointer, so that the state of the tracker is the world's from then on.
  unfoldable pub new : Config → Engine S × ConnTracker
  unfolding new_conn_tracker
  new cfg = (
    record { cfg = cfg; tproxy = none; interceptor = none },
    new_conn_tracker (seconds cfg.system.conn_track_ttl) (uint16 cfg.system.tproxy_port),
  )

  abbrev pub new_tproxy : Machine → Settings → PerformanceConfig → ℤ → Option (TProxy S)
  new_tproxy m s perf tproxy_port =
      if m.listens tproxy_port
      then some (record {
        upstream = new_upstream_dialer s;
        buffer_size = clamp_buffer_size perf.buffer_size;
      })
      else none

  -- The engine, the error, and whether the proxy's port is listened at.
  unfoldable pub start : Machine → ConnTracker → Engine S → Engine S × (Option StartError × Bool)
  unfolding parse_addr new_interceptor proxy_filter_ip clamp_buffer_size
  start m tracker e = elim (upstream_server e.cfg.servers) [
    | none ↦ (e, (some no_upstream, false))
    | some server ↦ elim (parse_addr m (settings_from server).p_addr) [
      | none ↦ (e, (some invalid_upstream, false))
      | some (proxy_host, proxy_port) ↦
          elim (new_tproxy m (settings_from server) e.cfg.performance e.cfg.system.tproxy_port) [
            | none ↦ (e, (some listen_failed, false))
            | some tp ↦
                let i =
                  new_interceptor m.host tracker (proxy_filter_ip m.host proxy_host)
                    (uint16 e.cfg.system.tproxy_port) (listed e.cfg.process_whitelist) in
                elim (preflight m) [
                  | some err ↦ (e, (some err, false))
                  | none ↦ (record e { tproxy = some tp; interceptor = some i }, (none, true))
                ]
          ]
    ]
  ]

abbrev pub close_world : World → World
close_world w = record w { handle = false; policies = FlowPolicy.close w.policies }

-- `Interceptor.Close`: the status is set to stopped, the policies are closed and the driver's handle is
-- given up.
unfoldable pub close_interceptor : World × State → World × State
close_interceptor (w, s) = (close_world w, stopped)

-- `Stop`, but for what it removes from the disk; the engine with whether the proxy's port is listened at. A
-- tracker that no interceptor has is closed too; the status is the receive loop's (Capture).
module _ {S : Type 0} where
  unfoldable pub stop : Engine S × Bool → Engine S × Bool
  unfolding close_interceptor
  stop (e, listening) = (
    record e {
      interceptor = elim e.interceptor [
        | none ↦ none
        | some w ↦
            some (record (close_interceptor (w, running)).0 { tracker = ConnTrack.close w.tracker })
      ];
    },
    elim e.tproxy [ none ↦ listening | some tp ↦ false ],
  )
