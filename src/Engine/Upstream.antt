-- ===== src/Engine/Upstream.antt =====
-- internal/engine/upstream.go, and `NewHTTPProxy` of httpproxy.go: the dialer of the upstream proxy and its
-- cache. `Dialer` holds the lock twice; what other goroutines do between is the state that the second part
-- starts from. `S` stands for the dialers that are not goPass's own.
pub mod Keys
pub mod Reach
pub mod Cache
pub mod Examples
use go_pass.Base.{
  ℕ, Bool, true, false, not, ◌&&◌, ◌||◌, List, [], ◌∷◌, ◌++◌, Option, none, some, ◌==◌,
  if◌then◌else◌, Text, Bytes, codes, text_eq,
}

pub record HttpProxyDialer : Type 0 where
  pub proxy_addr : Text
  pub username : Text
  pub password : Text

pub data Dialer (S : Type 0) : Type 0 where
  http_proxy : HttpProxyDialer → Dialer S
  other : S → Dialer S

pub record UpstreamDialer (S : Type 0) : Type 0 where
  pub p_type : Text
  pub p_addr : Text
  pub username : Text
  pub password : Text
  pub cached : Option (Dialer S)
  pub cached_key : Text

-- `strings.Contains` for a text of one byte.
abbrev pub has_byte : ℕ → Text → Bool
has_byte b [] = false
has_byte b (c ∷ cs) = c == b || has_byte b cs

unfoldable pub new_http_proxy : Text → Text → Text → HttpProxyDialer
new_http_proxy addr username password = record {
  proxy_addr = if not (has_byte 58 addr) then addr ++ codes ":80" else addr;
  username = username;
  password = password;
}

-- The four texts that a dialer is built from.
pub record Settings : Type 0 where
  pub p_type : Text
  pub p_addr : Text
  pub username : Text
  pub password : Text

abbrev pub upstream_cache_key : Settings → Text
upstream_cache_key s =
    s.p_type ++ (codes "://" ++ (s.p_addr ++ (0 ∷ (s.username ++ (0 ∷ s.password)))))

abbrev pub custom : Text
custom = codes "custom"

module _ {S : Type 0} where
  abbrev pub settings : UpstreamDialer S → Settings
  settings u = record {
    p_type = u.p_type;
    p_addr = u.p_addr;
    username = u.username;
    password = u.password;
  }

  abbrev pub new_upstream_dialer : Settings → UpstreamDialer S
  new_upstream_dialer s = record {
    p_type = s.p_type;
    p_addr = s.p_addr;
    username = s.username;
    password = s.password;
    cached = none;
    cached_key = [];
  }

  abbrev pub update : Settings → UpstreamDialer S → UpstreamDialer S
  update s u = record u {
    p_type = s.p_type;
    p_addr = s.p_addr;
    username = s.username;
    password = s.password;
    cached = none;
    cached_key = [];
  }

  abbrev pub current : UpstreamDialer S → Text × Text
  current u = (u.p_type, u.p_addr)

  abbrev pub set_dialer : Option (Dialer S) → UpstreamDialer S → UpstreamDialer S
  set_dialer d u = record u { cached = d; cached_key = custom }

  abbrev pub is_some : Option (Dialer S) → Bool
  is_some none = false
  is_some (some d) = true

  -- The two tests that each part of `Dialer` starts with.
  unfoldable pub hit : Text → UpstreamDialer S → Option (Dialer S)
  hit key u =
      if text_eq u.cached_key custom && is_some u.cached
      then u.cached
      else if is_some u.cached && text_eq u.cached_key key
      then u.cached
      else none

  -- What `Dialer` makes where nothing is cached; none is the error of `proxy.SOCKS5`.
  unfoldable pub build : (Text → Option (Text × Text) → Option S) → Settings → Option (Dialer S)
  unfolding new_http_proxy
  build socks5 s =
      if text_eq s.p_type (codes "http")
      then some (http_proxy (new_http_proxy s.p_addr s.username s.password))
      else elim (if not (text_eq s.username [])
          then socks5 s.p_addr (some (s.username, s.password))
          else socks5 s.p_addr none) [ none ↦ none | some d ↦ some (other d) ]

  -- The second part of `Dialer`, with the settings that the first part read.
  unfoldable pub fill :
      (Text → Option (Text × Text) → Option S)
      → Settings
      → UpstreamDialer S
      → UpstreamDialer S × Option (Dialer S)
  unfolding hit build
  fill socks5 s u = elim (hit (upstream_cache_key s) u) [
    | some d ↦ (u, some d)
    | none ↦ elim (build socks5 s) [
      | none ↦ (u, none)
      | some d ↦ (record u { cached = some d; cached_key = upstream_cache_key s }, some d)
    ]
  ]

  -- `waited` is the state when the second part gets the lock.
  unfoldable pub dialer :
      (Text → Option (Text × Text) → Option S)
      → UpstreamDialer S
      → UpstreamDialer S
      → UpstreamDialer S × Option (Dialer S)
  unfolding hit fill
  dialer socks5 waited u = elim (hit (upstream_cache_key (settings u)) u) [
    | some d ↦ (u, some d)
    | none ↦ fill socks5 (settings u) waited
  ]
