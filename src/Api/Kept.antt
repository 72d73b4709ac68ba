-- ===== src/Api/Kept.antt =====
-- api.go: the settings stay ones that the program can run with.
use go_pass.Base.{
  ◌≡◌, refl, Bool, true, false, not, ◌&&◌, ◌||◌, List, [], ◌∷◌, inl, inr, arith, if◌then◌else◌,
  Bool-cases, Option-cases, below, above, Text, codes, text_eq,
}
use go_pass.Config.{Config, Server, Files, clamp_buffer_size}
use go_pass.Config.Defaults.{IsBounded, clamp_buffer_size_lem}
use go_pass.Engine.Whitelist.{is_empty, added, removed}
use go_pass.Engine.Control.{
  Engine, edited, update_upstream, update_performance, mutate_whitelist, add_process,
  remove_process,
}
use go_pass.Api.{
  Web, Request, UpstreamRequest, Method, get_method, post, delete_method, other_method, Verdict,
  served, cross_origin, bad_host, guard,
}
use go_pass.Api.Handlers.{
  is_valid_upstream, wanted_process, handle_upstream, handle_performance, handle_process_whitelist,
  serve, elsewhere,
}

-- A type that the dialer knows, an address, and a port.
pub record IsDialable (s : Server) : Type 0 where
  pub known : text_eq s.type (codes "socks5") || text_eq s.type (codes "http") ≡ true
  pub addressed : is_empty s.address ≡ false
  pub port_low : below s.port 1 ≡ false
  pub port_high : above s.port 65535 ≡ false

abbrev pub IsFirstDialable : List Server → Type 0
IsFirstDialable [] = Unit {0}
IsFirstDialable (s ∷ rest) = IsDialable s

pub record IsUsable (c : Config) : Type 0 where
  pub dialable : IsFirstDialable c.servers
  pub bounded : IsBounded c.performance.buffer_size

valid_lem :
    (known blank low high : Bool)
    → not (known && not blank && not low && not high) ≡ false
    → (known ≡ true) × ((blank ≡ false) × ((low ≡ false) × (high ≡ false)))
valid_lem known blank low high h =
    (ground (arith, h), (ground (arith, h), (ground (arith, h), ground (arith, h))))

edited-IsDialable :
    (web : Web) (u : UpstreamRequest) (servers : List Server)
    → not (is_valid_upstream web u) ≡ false
    → IsFirstDialable (
        (edited u.type (web.system.strings.trim_space u.address) u.port servers).0
        ∷ (edited u.type (web.system.strings.trim_space u.address) u.port servers).1)
unfolding edited
edited-IsDialable web u servers valid =
    let (known, (addressed, (low, high))) =
      valid_lem (text_eq u.type (codes "socks5") || text_eq u.type (codes "http"))
        (is_empty (web.system.strings.trim_space u.address)) (below u.port 1) (above u.port 65535)
        valid in
    go known addressed low high servers
  where
    go :
        text_eq u.type (codes "socks5") || text_eq u.type (codes "http") ≡ true
        → is_empty (web.system.strings.trim_space u.address) ≡ false
        → below u.port 1 ≡ false
        → above u.port 65535 ≡ false
        → (ss : List Server)
        → IsDialable (edited u.type (web.system.strings.trim_space u.address) u.port ss).0
    go k a l h [] = record { known = k; addressed = a; port_low = l; port_high = h }
    go k a l h (s ∷ rest) = record { known = k; addressed = a; port_low = l; port_high = h }

module _ {S : Type 0} (web : Web) (path : Text) (r : Request) where
  mutate_whitelist-IsUsable :
      (fn : List Text → List Text) (e : Engine S) (fs : Files)
      → IsUsable e.cfg
      → IsUsable (mutate_whitelist web.system path fn e fs).0.cfg
  unfolding mutate_whitelist
  mutate_whitelist-IsUsable fn e fs u = record { dialable = u.dialable; bounded = u.bounded }

  add_process-IsUsable :
      (name : Text) (e : Engine S) (fs : Files)
      → IsUsable e.cfg
      → IsUsable (add_process web.system name path e fs).0.cfg
  unfolding add_process
  add_process-IsUsable name e fs u =
      elim (Bool-cases (is_empty (web.system.strings.trim_space name))) [
        | inl blank ↦ rw (add_process, blank) u
        | inr full ↦
            rw (add_process, full)
              (mutate_whitelist-IsUsable
                (added web.system.strings (web.system.strings.trim_space name)) e fs u)
      ]

  remove_process-IsUsable :
      (name : Text) (e : Engine S) (fs : Files)
      → IsUsable e.cfg
      → IsUsable (remove_process web.system name path e fs).0.cfg
  unfolding remove_process
  remove_process-IsUsable name e fs u =
      mutate_whitelist-IsUsable (removed web.system.strings (web.system.strings.trim_space name)) e
        fs u

  update_upstream-IsUsable :
      (u : UpstreamRequest) (e : Engine S) (fs : Files)
      → not (is_valid_upstream web u) ≡ false
      → IsUsable e.cfg
      → IsUsable
          (update_upstream web.system u.type
            (web.system.strings.trim_space u.address)
            u.port
            path
            e
            fs).0.cfg
  unfolding update_upstream
  update_upstream-IsUsable u e fs valid usable = record {
    dialable = edited-IsDialable web u e.cfg.servers valid;
    bounded = usable.bounded;
  }

  handle_upstream-IsUsable :
      (e : Engine S) (fs : Files)
      → IsUsable e.cfg
      → IsUsable (handle_upstream web path r e fs).0.0.cfg
  unfolding handle_upstream
  handle_upstream-IsUsable e fs usable = go r.method refl
    where
      go : (m : Method) → r.method ≡ m → IsUsable (handle_upstream web path r e fs).0.0.cfg
      go get_method h = rw (handle_upstream, h) usable
      go delete_method h = rw (handle_upstream, h) usable
      go other_method h = rw (handle_upstream, h) usable
      go post h = elim (Option-cases r.upstream) [
        | inl nil ↦ rw (handle_upstream, h, nil) usable
        | inr (u, given) ↦ elim (Bool-cases (not (is_valid_upstream web u))) [
          | inl bad ↦ rw (handle_upstream, h, given, bad) usable
          | inr good ↦
              rw (handle_upstream, h, given, good) (update_upstream-IsUsable u e fs good usable)
        ]
      ]

  handle_performance-IsUsable :
      (e : Engine S) (fs : Files)
      → IsUsable e.cfg
      → IsUsable (handle_performance web path r e fs).0.0.cfg
  unfolding handle_performance update_performance
  handle_performance-IsUsable e fs usable = go r.method refl
    where
      go : (m : Method) → r.method ≡ m → IsUsable (handle_performance web path r e fs).0.0.cfg
      go get_method h = rw (handle_performance, h) usable
      go delete_method h = rw (handle_performance, h) usable
      go other_method h = rw (handle_performance, h) usable
      go post h = elim (Option-cases r.performance) [
        | inl nil ↦ rw (handle_performance, h, nil) usable
        | inr (size, given) ↦
            rw (handle_performance, h, given)
              (record {
                dialable = usable.dialable;
                bounded = (clamp_buffer_size_lem (clamp_buffer_size size)).0;
              })
      ]

  handle_process_whitelist-IsUsable :
      (e : Engine S) (fs : Files)
      → IsUsable e.cfg
      → IsUsable (handle_process_whitelist web path r e fs).0.0.cfg
  unfolding handle_process_whitelist
  handle_process_whitelist-IsUsable e fs usable = go r.method refl
    where
      go : (m : Method) → r.method ≡ m → IsUsable (handle_process_whitelist web path r e fs).0.0.cfg
      go get_method h = rw (handle_process_whitelist, h) usable
      go other_method h = rw (handle_process_whitelist, h) usable
      go post h = elim (Option-cases (wanted_process web r)) [
        | inl nil ↦ rw (handle_process_whitelist, h, nil) usable
        | inr (name, given) ↦
            rw (handle_process_whitelist, h, given) (add_process-IsUsable name e fs usable)
      ]
      go delete_method h = elim (Option-cases (wanted_process web r)) [
        | inl nil ↦ rw (handle_process_whitelist, h, nil) usable
        | inr (name, given) ↦
            let (before, (saved, list)) = add_process web.system name path e fs in
            rw (handle_process_whitelist, h, given)
              (remove_process-IsUsable name before saved (add_process-IsUsable name e fs usable))
      ]

  routed :
      (b1 b2 b3 : Bool) (e : Engine S) (fs : Files)
      → IsUsable e.cfg
      → IsUsable
          (if b1
            then handle_upstream web path r e fs
            else if b2
            then handle_performance web path r e fs
            else if b3
            then handle_process_whitelist web path r e fs
            else ((e, fs), elsewhere)).0.0.cfg
  routed true b2 b3 e fs u = handle_upstream-IsUsable e fs u
  routed false true b3 e fs u = handle_performance-IsUsable e fs u
  routed false false true e fs u = handle_process_whitelist-IsUsable e fs u
  routed false false false e fs u = u

  -- Whatever requests come, through the guard or not: if the first server has a type that the dialer knows, an
  -- address and a port between 1 and 65535, and the buffer size is within its bounds, then the same holds of the
  -- configuration after the request.
  pub serve-IsUsable :
      (listen_addr : Text) (e : Engine S) (fs : Files)
      → IsUsable e.cfg
      → IsUsable (serve web listen_addr path r e fs).0.0.cfg
  unfolding serve
  serve-IsUsable listen_addr e fs usable = go (guard web listen_addr r) refl
    where
      go :
          (v : Verdict)
          → guard web listen_addr r ≡ v
          → IsUsable (serve web listen_addr path r e fs).0.0.cfg
      go cross_origin h = rw (serve, h) usable
      go bad_host h = rw (serve, h) usable
      go served h =
          rw (serve, h)
            (routed (text_eq r.path (codes "/api/upstream"))
              (text_eq r.path (codes "/api/performance"))
              (text_eq r.path (codes "/api/process-whitelist")) e fs usable)
