-- ===== src/Engine/Control.antt =====
-- internal/engine/engine.go: the engine and the changes that the settings page makes to it while it runs, and
-- the operations of the interceptor and the transparent proxy that these call. `S` stands for the dialers
-- that are not goPass's own. A save goes to the files, its error is dropped as in the code.
pub mod Whitelisting
pub mod FilterIp
pub mod Settings
pub mod Examples
use go_pass.Base.{
  ℕ, suc, Bool, true, false, not, ◌&&◌, List, [], ◌∷◌, ◌++◌, Option, none, some, ◌==◌,
  if◌then◌else◌, ℤ, pos, negsuc, Text, Bytes, codes, itoa, text_eq,
}
use go_pass.Config.{Config, Server, PerformanceConfig, clamp_buffer_size, Files, Disk, save}
use go_pass.Engine.Addr.{Ipv4, to4, ip_string, is_loopback4}
use go_pass.Engine.Intercept.{World}
use go_pass.Engine.Upstream.{UpstreamDialer, update}
use go_pass.Engine.Whitelist.{Strings, is_empty, set_whitelist, added, removed, normalize_whitelist}

-- What the code uses of the system: `net.ParseIP`, `net.LookupIP` (none is an error), package strings, the
-- printing of JSON and the files.
pub record Host : Type 0 where
  pub parse_ip : Text → Option Bytes
  pub lookup_ip : Text → Option (List Bytes)
  pub strings : Strings
  pub print : Config → Option Bytes
  pub disk : Disk

pub record TProxy (S : Type 0) : Type 0 where
  pub upstream : UpstreamDialer S
  pub buffer_size : ℤ

pub record Engine (S : Type 0) : Type 0 where
  pub cfg : Config
  pub tproxy : Option (TProxy S)
  pub interceptor : Option World

-- `To4() != nil && !IsLoopback()`
unfoldable pub reachable_v4 : Bytes → Option Ipv4
reachable_v4 ip = elim (to4 ip) [ none ↦ none | some a ↦ if is_loopback4 a then none else some a ]

unfoldable pub first_v4 : List Bytes → Text
unfolding reachable_v4
first_v4 [] = []
first_v4 (ip ∷ ips) = elim (reachable_v4 ip) [ none ↦ first_v4 ips | some a ↦ ip_string a ]

looked_up : Option (List Bytes) → Text
unfolding first_v4
looked_up none = []
looked_up (some ips) = first_v4 ips

unfoldable pub proxy_filter_ip : Host → Text → Text
unfolding reachable_v4 looked_up
proxy_filter_ip h name = elim (h.parse_ip name) [
  | none ↦ looked_up (h.lookup_ip name)
  | some ip ↦ elim (reachable_v4 ip) [ none ↦ looked_up (h.lookup_ip name) | some a ↦ ip_string a ]
]

unfoldable pub parse_ipv4_bytes : Host → Text → Option Ipv4
parse_ipv4_bytes h s =
    if is_empty s then none else elim (h.parse_ip s) [ none ↦ none | some ip ↦ to4 ip ]

-- `%d`
abbrev pub decimal : ℤ → Text
decimal (pos n) = itoa n
decimal (negsuc n) = b'-' ∷ itoa (suc n)

-- `SetProxyAddr`; the packet handlers read the address in its second form only.
unfoldable pub set_proxy_addr : Host → Text → World → World
unfolding parse_ipv4_bytes
set_proxy_addr h ip w = record w { proxy4 = parse_ipv4_bytes h ip }

-- The first server with its new type, address and port.
unfoldable pub edited : Text → Text → ℤ → List Server → Server × List Server
edited pt addr port [] = (
  record {
    tag = codes "proxy";
    type = pt;
    address = addr;
    port = port;
    username = [];
    password = [];
  },
  [],
)
edited pt addr port (s ∷ rest) = (record s { type = pt; address = addr; port = port }, rest)

module _ {S : Type 0} where
  abbrev pub with_tproxy : (TProxy S → TProxy S) → Engine S → Engine S
  with_tproxy f e = record e { tproxy = elim e.tproxy [ none ↦ none | some tp ↦ some (f tp) ] }

  abbrev pub with_interceptor : (World → World) → Engine S → Engine S
  with_interceptor f e = record e {
    interceptor = elim e.interceptor [ none ↦ none | some w ↦ some (f w) ];
  }

  -- `SaveConfig` where a path is given.
  abbrev pub save_to : Host → Text → Engine S → Files → Files
  save_to h path e fs = if not (is_empty path) then (save h.print h.disk e.cfg path fs).0 else fs

  unfoldable pub update_performance : PerformanceConfig → Engine S → Engine S
  update_performance p e =
      let clamped = clamp_buffer_size p.buffer_size in
      with_tproxy (λ tp. record tp { buffer_size = clamp_buffer_size clamped })
        (record e { cfg = record (e.cfg) { performance = record { buffer_size = clamped } } })

  unfoldable pub update_upstream :
      Host → Text → Text → ℤ → Text → Engine S → Files → Engine S × Files
  unfolding edited proxy_filter_ip set_proxy_addr
  update_upstream h pt addr port path e fs =
      let (first, rest) = edited pt addr port e.cfg.servers in
      let configured = record e { cfg = record (e.cfg) { servers = first ∷ rest } } in
      let dialing =
        with_tproxy
          (λ tp. record tp {
            upstream =
                update
                  (record {
                    p_type = pt;
                    p_addr = addr ++ (b':' ∷ decimal port);
                    username = first.username;
                    password = first.password;
                  })
                  tp.upstream;
          })
          configured in
      let filtering = with_interceptor (set_proxy_addr h (proxy_filter_ip h addr)) dialing in
      (filtering, save_to h path filtering fs)

  -- `GetProcessWhitelist`
  abbrev pub get_process_whitelist : Engine S → List Text
  get_process_whitelist e = elim e.cfg.process_whitelist [ none ↦ [] | some list ↦ list ]

  unfoldable pub mutate_whitelist :
      Host → Text → (List Text → List Text) → Engine S → Files → Engine S × (Files × List Text)
  mutate_whitelist h path fn e fs =
      let clean = fn (get_process_whitelist e) in
      let configured = record e { cfg = record (e.cfg) { process_whitelist = some clean } } in
      let filtering =
        with_interceptor (λ w. record w { whitelist = set_whitelist h.strings clean }) configured in
      (filtering, (save_to h path filtering fs, clean))

  unfoldable pub add_process :
      Host → Text → Text → Engine S → Files → Engine S × (Files × List Text)
  unfolding mutate_whitelist
  add_process h raw path e fs =
      let name = h.strings.trim_space raw in
      if is_empty name
      then (e, (fs, get_process_whitelist e))
      else mutate_whitelist h path (added h.strings name) e fs

  unfoldable pub remove_process :
      Host → Text → Text → Engine S → Files → Engine S × (Files × List Text)
  unfolding mutate_whitelist
  remove_process h raw path e fs =
      mutate_whitelist h path (removed h.strings (h.strings.trim_space raw)) e fs
