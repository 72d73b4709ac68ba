-- ===== src/Engine/Control/Settings.antt =====
-- engine.go, `UpdateUpstream`: the configuration, the dialer and the packet filter afterwards.
use go_pass.Base.{◌≡◌, refl, sym, ap, ◌∙◌, false, List, [], ◌∷◌, ◌++◌, Option, none, some, Text, ℤ}
use go_pass.Config.{Server, Files}
use go_pass.Engine.Addr.{Ipv4, is_loopback4}
use go_pass.Engine.Intercept.{World}
use go_pass.Engine.Upstream.{Settings, settings, update}
use go_pass.Engine.Control.{
  Host, TProxy, Engine, proxy_filter_ip, parse_ipv4_bytes, set_proxy_addr, decimal, edited,
  update_upstream,
}
use go_pass.Engine.Control.FilterIp.{
  IsReader, proxy_filter_ip-IsFilterIp, parse_ipv4_bytes-IsFilterIp,
}

-- The settings that a server of the configuration stands for.
abbrev pub settings_of : Server → Settings
settings_of s = record {
  p_type = s.type;
  p_addr = s.address ++ (b':' ∷ decimal s.port);
  username = s.username;
  password = s.password;
}

abbrev pub credentials : List Server → Text × Text
credentials [] = ([], [])
credentials (s ∷ rest) = (s.username, s.password)

abbrev pub others : List Server → List Server
others [] = []
others (s ∷ rest) = rest

-- What a change of the upstream leaves.
pub record Updated {S : Type 0} (pt addr : Text) (port : ℤ) (before after : Engine S) : Type 0 where
  pub first : Server
  pub servers : after.cfg.servers ≡ first ∷ others before.cfg.servers
  pub kept : credentials (first ∷ []) ≡ credentials before.cfg.servers
  pub new_type : first.type ≡ pt
  pub new_address : first.address ≡ addr
  pub new_port : first.port ≡ port
  pub dialing :
      (tp : TProxy S)
      → after.tproxy ≡ some tp
      → (settings tp.upstream ≡ settings_of first) × (tp.upstream.cached ≡ none)
  pub exempt :
      (w : World) (a : Ipv4)
      → after.interceptor ≡ some w
      → w.proxy4 ≡ some a
      → is_loopback4 a ≡ false

new_settings : Text → Text → ℤ → Server → Settings
new_settings pt addr port s = record {
  p_type = pt;
  p_addr = addr ++ (b':' ∷ decimal port);
  username = s.username;
  password = s.password;
}

edited_lem :
    (pt addr : Text) (port : ℤ) (servers : List Server)
    → (new_settings pt addr port (edited pt addr port servers).0
        ≡ settings_of (edited pt addr port servers).0)
      × ((edited pt addr port servers).1 ≡ others servers)
      × (credentials ((edited pt addr port servers).0 ∷ []) ≡ credentials servers)
      × ((edited pt addr port servers).0.type ≡ pt)
      × ((edited pt addr port servers).0.address ≡ addr)
      × ((edited pt addr port servers).0.port ≡ port)
unfolding edited new_settings
edited_lem pt addr port [] = (refl, refl, refl, refl, refl, refl)
edited_lem pt addr port (s ∷ rest) = (refl, refl, refl, refl, refl, refl)

filtered_proxy :
    (h : Host) (text : Text) (interceptor : Option World) (w : World)
    → elim interceptor as (λ _. Option World) [
      | none ↦ none
      | some v ↦ some (set_proxy_addr h text v)
    ]
      ≡ some w
    → w.proxy4 ≡ parse_ipv4_bytes h text
unfolding set_proxy_addr
filtered_proxy h text none w e = cc e
filtered_proxy h text (some v) w e = cc e

module _ {S : Type 0} where
  redialed :
      (s : Settings) (tproxy : Option (TProxy S)) (tp : TProxy S)
      → elim tproxy as (λ _. Option (TProxy S)) [
        | none ↦ none
        | some t ↦ some (record t { upstream = update s t.upstream })
      ]
        ≡ some tp
      → (settings tp.upstream ≡ s) × (tp.upstream.cached ≡ none)
  redialed s none tp e = cc e
  redialed s (some t) tp e =
      let same : record t { upstream = update s t.upstream } ≡ tp = cc e in
      rw (sym same) (refl, refl)

  -- After `UpdateUpstream` the first server has the new type, address and port and the user name and password
  -- it had; the other servers are the same; the dialer of the transparent proxy, where it runs, has the settings
  -- of that server and nothing cached; and the address that the packet filter lets by is no loopback address.
  -- `net.ParseIP` is taken to read what `net.IP.String` prints of an IPv4 address that the
  -- system gave for the host.
  pub update_upstream_lem :
      (h : Host) (pt addr : Text) (port : ℤ) (path : Text) (e : Engine S) (fs : Files)
      → IsReader h addr
      → Updated pt addr port e (update_upstream h pt addr port path e fs).0
  unfolding update_upstream new_settings
  update_upstream_lem h pt addr port path e fs reads =
      let (new_first, same, creds, is_type, is_address, is_port) =
        edited_lem pt addr port e.cfg.servers in
      record {
        first = (edited pt addr port e.cfg.servers).0;
        servers = ap (λ rest. (edited pt addr port e.cfg.servers).0 ∷ rest) same;
        kept = creds;
        new_type = is_type;
        new_address = is_address;
        new_port = is_port;
        dialing =
            λ tp live. let (set, clear) = redialed _ e.tproxy tp live in (set ∙ new_first, clear);
        exempt = λ w a live found.
            (parse_ipv4_bytes-IsFilterIp h addr (proxy_filter_ip h addr) a reads
              (proxy_filter_ip-IsFilterIp h addr)
              (sym (filtered_proxy h (proxy_filter_ip h addr) e.interceptor w live) ∙ found)).0;
      }
