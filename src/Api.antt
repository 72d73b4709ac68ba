-- ===== src/Api.antt =====
-- internal/api/api.go: the guard of the settings page and its handlers. `url_host` is the host of `url.Parse`
-- (none is an error). A request has the body that JSON was decoded to for each handler, none where that failed.
-- The engine is there.
pub mod Guarded
pub mod Handlers
pub mod Kept
pub mod Status
pub mod Examples
use go_pass.Base.{
  ℕ, Bool, true, false, not, ◌&&◌, ◌||◌, List, [], ◌∷◌, ◌++◌, Option, none, some, ◌==◌,
  if◌then◌else◌, ℤ, pos, below, above, Text, Bytes, codes, text_eq, ◌>>=◌,
}
use go_pass.Config.{Config, Server, PerformanceConfig, Files, clamp_buffer_size, save}
use go_pass.Engine.Addr.{Ipv4, to4, is_loopback4, is_loopback6}
use go_pass.Engine.Whitelist.{Strings, is_empty}
use go_pass.Engine.Control.{
  Host, Engine, get_process_whitelist, update_upstream, update_performance, add_process,
  remove_process,
}

pub record Web : Type 0 where
  pub split_host_port : Text → Option (Text × Text)
  pub url_host : Text → Option Text
  pub system : Host

is_bracket : ℕ → Bool
is_bracket c = c == b'[' || c == b']'

trim_start : Text → Text
unfolding is_bracket
trim_start [] = []
trim_start (c ∷ cs) = if is_bracket c then trim_start cs else c ∷ cs

trim_end : Text → Text
unfolding is_bracket
trim_end [] = []
trim_end (c ∷ cs) = let rest = trim_end cs in if is_bracket c && is_empty rest then [] else c ∷ rest

-- `strings.Trim(hostname, "[]")`
unfoldable pub trim_brackets : Text → Text
unfolding trim_start trim_end
trim_brackets name = trim_end (trim_start name)

-- `net.IP.IsLoopback`
unfoldable pub is_loopback : Bytes → Bool
unfolding to4 is_loopback6
is_loopback ip = elim (to4 ip) [ none ↦ is_loopback6 ip | some a ↦ is_loopback4 a ]

-- The host that a header names, without its port.
unfoldable pub header_host : Web → Text → Text
unfolding trim_brackets
header_host web header =
    web.system.strings.to_lower
      (trim_brackets (elim (web.split_host_port header) [ none ↦ header | some p ↦ p.0 ]))

is_loopback_literal : Web → Text → Bool
unfolding is_loopback
is_loopback_literal web name = elim (web.system.parse_ip name) [
  | none ↦ false
  | some ip ↦ is_loopback ip
]

abbrev pub is_literal : Web → Text → Bool
is_literal web name = elim (web.system.parse_ip name) [ none ↦ false | some ip ↦ true ]

-- Whether the server listens at one address.
abbrev pub is_bound : Text → Bool
is_bound listen_host =
    not (is_empty listen_host)
    && not (text_eq listen_host (codes "0.0.0.0"))
    && not (text_eq listen_host (codes "::"))

unfoldable pub allowed_api_host : Web → Text → Text → Bool
unfolding header_host is_loopback_literal
allowed_api_host web listen_host header =
    let hostname = header_host web header in
    if is_empty hostname
    then false
    else if text_eq hostname (codes "localhost")
    then true
    else if is_loopback_literal web hostname
    then true
    else if is_bound listen_host
    then web.system.strings.equal_fold hostname listen_host
    else is_literal web hostname

pub data Method : Type 0 where
  get_method post delete_method other_method : Method

pub record UpstreamRequest : Type 0 where
  pub type : Text
  pub address : Text
  pub port : ℤ

pub record Request : Type 0 where
  pub path : Text
  pub method : Method
  pub origin : Text
  pub host_header : Text
  pub upstream : Option UpstreamRequest
  pub performance : Option ℤ
  pub process : Option Text

pub data Verdict : Type 0 where
  served cross_origin bad_host : Verdict

abbrev pub has_prefix : Text → Text → Bool
has_prefix [] path = true
has_prefix (c ∷ cs) [] = false
has_prefix (c ∷ cs) (d ∷ path) = c == d && has_prefix cs path

abbrev pub api_path : Text
api_path = codes "/api/"

unfoldable pub listen_host_of : Web → Text → Text
listen_host_of web listen_addr = elim (web.split_host_port listen_addr) [
  | none ↦ []
  | some p ↦ web.system.strings.to_lower p.0
]

-- `u.Host` and `r.Host` agree.
abbrev pub same_origin : Web → Request → Bool
same_origin web r = elim (web.url_host r.origin) [
  | none ↦ false
  | some h ↦ web.system.strings.equal_fold h r.host_header
]

unfoldable pub guard : Web → Text → Request → Verdict
unfolding allowed_api_host listen_host_of
guard web listen_addr r =
    if not (has_prefix api_path r.path)
    then served
    else if not (is_empty r.origin) && not (same_origin web r)
    then cross_origin
    else if not (allowed_api_host web (listen_host_of web listen_addr) r.host_header)
    then bad_host
    else served
