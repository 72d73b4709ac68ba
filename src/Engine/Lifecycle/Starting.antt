-- ===== src/Engine/Lifecycle/Starting.antt =====
-- engine.go, `New` and `Start`: what runs afterwards.
use go_pass.Base.{
  ℕ, ◌≡◌, refl, ap, Bool, true, false, List, [], ◌∷◌, ◌++◌, Option, none, some, inl, inr, arith,
  Bool-cases, Option-cases, All, Text, ℤ,
}
use go_pass.Config.{Config, Server, clamp_buffer_size}
use go_pass.Engine.Addr.{Ipv4, is_loopback4}
use go_pass.Engine.ConnTrack.{ConnTracker, new_conn_tracker}
use go_pass.Engine.ConnTrack.Invariant.{Inv}
use go_pass.Engine.ConnTrack.Flows.{new_conn_tracker-Inv}
use go_pass.Engine.Intercept.{World}
use go_pass.Engine.Upstream.{settings, new_upstream_dialer}
use go_pass.Engine.Control.{Host, TProxy, Engine, proxy_filter_ip, set_proxy_addr}
use go_pass.Engine.Control.FilterIp.{
  IsReader, proxy_filter_ip-IsFilterIp, parse_ipv4_bytes-IsFilterIp,
}
use go_pass.Engine.Control.Settings.{settings_of}
use go_pass.Engine.Whitelist.{has, normalize_whitelist}
use go_pass.Engine.Whitelist.Sets.{contains, set_whitelist-has}
use go_pass.Engine.Lifecycle.{
  Machine, uint16, seconds, known_type, upstream_server, settings_from, parse_addr, listed,
  new_interceptor, StartError, no_upstream, invalid_upstream, listen_failed, preflight, new, start,
}

-- The first server of a type that goPass can dial.
pub record FirstKnown (servers : List Server) (server : Server) : Type 0 where
  pub skipped : List Server
  pub rest : List Server
  pub parts : servers ≡ skipped ++ server ∷ rest
  pub unknown : All (λ s. known_type s ≡ false) skipped
  pub known : known_type server ≡ true

upstream_server-FirstKnown :
    (servers : List Server) (server : Server)
    → upstream_server servers ≡ some server
    → FirstKnown servers server
upstream_server-FirstKnown [] server e = cc e
upstream_server-FirstKnown (s ∷ rest) server e = elim (Bool-cases (known_type s)) [
  | inl known ↦
      let same : s ≡ server = ground (arith) in
      record {
        skipped = [];
        rest = rest;
        parts = rw same refl;
        unknown = tt;
        known = rw⁻¹ same known;
      }
  | inr unknown ↦
      let later = upstream_server-FirstKnown rest server (ground arith) in
      record {
        skipped = s ∷ later.skipped;
        rest = later.rest;
        parts = ap (◌∷◌ s) later.parts;
        unknown = (unknown, later.unknown);
        known = later.known;
      }
]

-- The interceptor of a new engine.
pub record Ready (h : Host) (cfg : Config) (w : World) : Type 0 where
  pub valid : Inv w.tracker
  pub own_port : w.tproxy_port ≡ uint16 cfg.system.tproxy_port
  pub reserved : w.tracker.reserved_port ≡ w.tproxy_port
  pub names :
      (n : Text)
      → has n w.whitelist
        ≡ contains n (normalize_whitelist h.strings (listed cfg.process_whitelist))
  pub exempt : (a : Ipv4) → w.proxy4 ≡ some a → is_loopback4 a ≡ false

new_interceptor-Ready :
    (h : Host) (cfg : Config) (name : Text) (ttl : ℕ)
    → IsReader h name
    → Ready h cfg (
        new_interceptor h
          (new_conn_tracker ttl (uint16 cfg.system.tproxy_port))
          (proxy_filter_ip h name)
          (uint16 cfg.system.tproxy_port)
          (listed cfg.process_whitelist))
unfolding new_interceptor new_conn_tracker set_proxy_addr
new_interceptor-Ready h cfg name ttl reads = record {
  valid = new_conn_tracker-Inv ttl (uint16 cfg.system.tproxy_port);
  own_port = refl;
  reserved = refl;
  names = λ n. set_whitelist-has h.strings (listed cfg.process_whitelist) n;
  exempt = λ a found.
      (parse_ipv4_bytes-IsFilterIp h name (proxy_filter_ip h name) a reads
        (proxy_filter_ip-IsFilterIp h name) found).0;
}

module _ {S : Type 0} (m : Machine) (tracker : ConnTracker) (e : Engine S) where
  start_absent :
      upstream_server e.cfg.servers ≡ none → start m tracker e ≡ (e, (some no_upstream, false))
  unfolding start
  start_absent absent = ground arith

  module _ (server : Server) (found : upstream_server e.cfg.servers ≡ some server) where
    start_misread :
        parse_addr m (settings_from server).p_addr ≡ none
        → start m tracker e ≡ (e, (some invalid_upstream, false))
    unfolding start
    start_misread bad = rw (found, start, bad) refl

    module _ (name : Text) (port : ℤ)
        (parsed : parse_addr m (settings_from server).p_addr ≡ some (name, port)) where
      start_unheard :
          m.listens e.cfg.system.tproxy_port ≡ false
          → start m tracker e ≡ (e, (some listen_failed, false))
      unfolding start
      start_unheard silent = rw (found, start, parsed, silent) refl

      start_refused :
          (err : StartError)
          → m.listens e.cfg.system.tproxy_port ≡ true
          → preflight m ≡ some err
          → start m tracker e ≡ (e, (some err, false))
      unfolding start
      start_refused err heard refused = rw (found, start, parsed, heard, refused) refl

      abbrev proxy : TProxy S
      proxy = record {
        upstream = new_upstream_dialer (settings_from server);
        buffer_size = clamp_buffer_size e.cfg.performance.buffer_size;
      }

      abbrev interceptor : World
      interceptor =
          new_interceptor m.host tracker (proxy_filter_ip m.host name)
            (uint16 e.cfg.system.tproxy_port) (listed e.cfg.process_whitelist)

      start_done :
          m.listens e.cfg.system.tproxy_port ≡ true
          → preflight m ≡ none
          → start m tracker e
            ≡ (record e { tproxy = some proxy; interceptor = some interceptor }, (none, true))
      unfolding start
      start_done heard checked = rw (found, start, parsed, heard, checked) refl

-- An engine that runs on a configuration.
pub record Runs {S : Type 0} (h : Host) (cfg : Config) (e : Engine S) : Type 0 where
  pub server : Server
  pub served : FirstKnown cfg.servers server
  pub proxy : TProxy S
  pub proxy_is : e.tproxy ≡ some proxy
  pub dials : settings proxy.upstream ≡ settings_of server
  pub nothing_cached : proxy.upstream.cached ≡ none
  pub world : World
  pub world_is : e.interceptor ≡ some world
  pub ready : Ready h cfg world
  pub cfg_is : e.cfg ≡ cfg

-- What a start leaves: an engine that runs, or with an error the engine as it was and nothing listening.
abbrev pub Outcome : {S : Type 0} → Host → Engine S → Engine S × (Option StartError × Bool) → Type 0
Outcome h e (e', (none, listening)) = Runs h e.cfg e' × (listening ≡ true)
Outcome h e (e', (some err, listening)) = (e' ≡ e) × (listening ≡ false)

start_on :
    {S : Type 0} (m : Machine) (ttl : ℕ) (e : Engine S)
    → ((name : Text) → IsReader m.host name)
    → Outcome m.host e (start m (new_conn_tracker ttl (uint16 e.cfg.system.tproxy_port)) e)
start_on m ttl e reads =
    let tracker = new_conn_tracker ttl (uint16 e.cfg.system.tproxy_port) in
    elim (Option-cases (upstream_server e.cfg.servers)) [
      | inl absent ↦ rw (start_absent m tracker e absent) (refl, refl)
      | inr (server, found) ↦ elim (Option-cases (parse_addr m (settings_from server).p_addr)) [
        | inl bad ↦ rw (start_misread m tracker e server found bad) (refl, refl)
        | inr ((name, port), parsed) ↦ elim (Bool-cases (m.listens e.cfg.system.tproxy_port)) [
          | inr silent ↦
              rw (start_unheard m tracker e server found name port parsed silent) (refl, refl)
          | inl heard ↦ elim (Option-cases (preflight m)) [
            | inr (err, refused) ↦
                rw (start_refused m tracker e server found name port parsed err heard refused)
                  (refl, refl)
            | inl checked ↦
                rw (start_done m tracker e server found name port parsed heard checked) (
                  record {
                    server = server;
                    served = upstream_server-FirstKnown e.cfg.servers server found;
                    proxy = proxy m tracker e server found name port parsed;
                    proxy_is = refl;
                    dials = refl;
                    nothing_cached = refl;
                    world = interceptor m tracker e server found name port parsed;
                    world_is = refl;
                    ready = new_interceptor-Ready m.host e.cfg name ttl (reads name);
                    cfg_is = refl;
                  },
                  refl,
                )
          ]
        ]
      ]
    ]

-- `New` and then `Start`, where `net.ParseIP` reads what `net.IP.String` prints of the IPv4 addresses that the
-- system gives for a name. If `Start` reports no error, the proxy's port is listened at; the transparent
-- proxy dials with exactly the settings of the first configured server of a known type, user name and
-- password included; and the interceptor has a valid tracker that never gives out the proxy's own port,
-- exactly the names of the cleaned whitelist, and exempts no loopback address. If it reports an error, the
-- engine is as before and the port is not listened at.
pub start_lem :
    (S : Type 0) (m : Machine) (cfg : Config)
    → ((name : Text) → IsReader m.host name)
    → Outcome m.host (new {S = S} cfg).0 (start m (new {S = S} cfg).1 (new {S = S} cfg).0)
unfolding new
start_lem S m cfg reads = start_on m (seconds cfg.system.conn_track_ttl) (new {S = S} cfg).0 reads
