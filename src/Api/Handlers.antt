-- ===== src/Api/Handlers.antt =====
-- api.go: the handlers that change settings, and the routes to them.
use go_pass.Base.{
  ℕ, Bool, not, ◌&&◌, ◌||◌, List, [], ◌∷◌, Option, none, some, if◌then◌else◌, ℤ, pos, below, above,
  Text, codes, text_eq, ◌>>=◌,
}
use go_pass.Config.{Server, Files, clamp_buffer_size, save}
use go_pass.Engine.Whitelist.{is_empty}
use go_pass.Engine.Control.{
  Engine, get_process_whitelist, update_upstream, update_performance, add_process, remove_process,
}
use go_pass.Api.{
  Web, UpstreamRequest, Request, guard, get_method, post, delete_method, other_method, served,
  cross_origin, bad_host,
}

-- What a handler answers: the code of an error, or what it encodes.
pub data Response : Type 0 where
  error : ℕ → Response
  upstream_is : Text → Text → ℤ → Response
  buffer_size_is : ℤ → Response
  processes_are : List Text → Response
  upstream_changed elsewhere : Response

-- The type is known, the address not blank and the port a port.
abbrev pub is_valid_upstream : Web → UpstreamRequest → Bool
is_valid_upstream web u =
    (text_eq u.type (codes "socks5") || text_eq u.type (codes "http"))
    && not (is_empty (web.system.strings.trim_space u.address))
    && not (below u.port 1)
    && not (above u.port 65535)

abbrev pub first_upstream : List Server → Response
first_upstream [] = upstream_is [] [] (pos 0)
first_upstream (s ∷ rest) = upstream_is s.type s.address s.port

-- The trimmed name of a request, none where it is missing or blank.
abbrev pub wanted_process : Web → Request → Option Text
wanted_process web r = do
  raw ← r.process
  if is_empty (web.system.strings.trim_space raw)
      then none
      else some (web.system.strings.trim_space raw)

module _ {S : Type 0} where
  unfoldable pub handle_upstream :
      Web → Text → Request → Engine S → Files → (Engine S × Files) × Response
  handle_upstream web path r e fs = elim r.method [
    | get_method ↦ ((e, fs), first_upstream e.cfg.servers)
    | post ↦ elim r.upstream [
      | none ↦ ((e, fs), error 400)
      | some u ↦ if not (is_valid_upstream web u) then ((e, fs), error 400) else (
        update_upstream web.system u.type (web.system.strings.trim_space u.address) u.port path e
            fs,
        upstream_changed,
      )
    ]
    | delete_method ↦ ((e, fs), error 405)
    | other_method ↦ ((e, fs), error 405)
  ]

  unfoldable pub handle_performance :
      Web → Text → Request → Engine S → Files → (Engine S × Files) × Response
  handle_performance web path r e fs = elim r.method [
    | get_method ↦ ((e, fs), buffer_size_is (clamp_buffer_size e.cfg.performance.buffer_size))
    | post ↦ elim r.performance [
      | none ↦ ((e, fs), error 400)
      | some wanted ↦
          let size = clamp_buffer_size wanted in
          let changed = update_performance (record { buffer_size = size }) e in
          let (written, ok) = save web.system.print web.system.disk changed.cfg path fs in
          ((changed, written), if not ok then error 500 else buffer_size_is size)
    ]
    | delete_method ↦ ((e, fs), error 405)
    | other_method ↦ ((e, fs), error 405)
  ]

  -- `AddProcess`, and on a request to delete then `RemoveProcess`.
  unfoldable pub handle_process_whitelist :
      Web → Text → Request → Engine S → Files → (Engine S × Files) × Response
  handle_process_whitelist web path r e fs =
      let missing : (Engine S × Files) × Response = ((e, fs), error 400) in
      elim r.method [
        | get_method ↦ ((e, fs), processes_are (get_process_whitelist e))
        | post ↦ elim (wanted_process web r) [
          | none ↦ missing
          | some process ↦
              let (e', (fs', list)) = add_process web.system process path e fs in
              ((e', fs'), processes_are list)
        ]
        | delete_method ↦ elim (wanted_process web r) [
          | none ↦ missing
          | some process ↦
              let (added, (saved, list)) = add_process web.system process path e fs in
              let (e', (fs', list')) = remove_process web.system process path added saved in
              ((e', fs'), processes_are list')
        ]
        | other_method ↦ ((e, fs), error 405)
      ]

  -- The routes of `StartServer` behind its guard; the other ones, among them the status, change nothing.
  unfoldable pub serve :
      Web → Text → Text → Request → Engine S → Files → (Engine S × Files) × Response
  unfolding guard handle_upstream handle_performance handle_process_whitelist
  serve web listen_addr path r e fs = elim (guard web listen_addr r) [
    | cross_origin ↦ ((e, fs), error 403)
    | bad_host ↦ ((e, fs), error 403)
    | served ↦
        if text_eq r.path (codes "/api/upstream")
        then handle_upstream web path r e fs
        else if text_eq r.path (codes "/api/performance")
        then handle_performance web path r e fs
        else if text_eq r.path (codes "/api/process-whitelist")
        then handle_process_whitelist web path r e fs
        else ((e, fs), elsewhere)
  ]
