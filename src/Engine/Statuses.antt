-- ===== src/Engine/Statuses.antt =====
-- internal/engine/windivert.go, `ProcessStatuses`: the connections of the last snapshot, by process and by whether
-- they go through the proxy. The map of groups is the list of its values in the order in which they were made;
-- Go hands them out in any order.
pub mod Counted
use go_pass.Base.{
  ℕ, zero, suc, ◌+◌, ◌/◌, ◌%◌, Bool, true, false, not, ◌&&◌, ◌||◌, List, [], ◌∷◌, ◌++◌, Option,
  none, some, ltb, ◌==◌, if◌then◌else◌, Text, codes, text_eq, length,
}
use go_pass.Process.Flows.{Flow, Entry}
use go_pass.Engine.Addr.{Ipv4, ip_string}
use go_pass.Engine.Intercept.{Env, World, is_whitelisted}
use go_pass.Engine.Control.{Engine}
use go_pass.Engine.Tunnel.{join_host_port}
use go_pass.Engine.Whitelist.{is_empty}

pub record ProcessStatus : Type 0 where
  pub process : Text
  pub pid : ℕ
  pub status : Text
  pub connections : ℕ
  pub targets : List Text

abbrev pub ip_from_uint32 : ℕ → Ipv4
ip_from_uint32 v = record {
  b0 = v % 256;
  b1 = v / 256 % 256;
  b2 = v / 65536 % 256;
  b3 = v / 16777216 % 256;
}

abbrev pub proxy_text : Text
proxy_text = codes "proxy"

abbrev pub direct_text : Text
direct_text = codes "direct"

-- The loop over the targets of a group.
abbrev pub is_seen : Text → List Text → Bool
is_seen target [] = false
is_seen target (t ∷ ts) = text_eq t target || is_seen target ts

abbrev pub add_target : Text → List Text → List Text
add_target target ts =
    if ltb (length ts) 4 then (if is_seen target ts then ts else ts ++ target ∷ []) else ts

abbrev pub target_of_flow : Flow → Text
target_of_flow f = join_host_port (ip_string (ip_from_uint32 f.remote_ip)) f.remote_port

-- One connection more in the group with this process and status, which is made if it is not there.
unfoldable pub count_in : Entry → Text → List ProcessStatus → List ProcessStatus
unfolding join_host_port ip_string
count_in e status [] =
    record {
      process = e.name;
      pid = e.pid;
      status = status;
      connections = 1;
      targets = add_target (target_of_flow e.flow) [];
    }
    ∷ []
count_in e status (g ∷ groups) =
    let others = count_in e status groups in
    if g.pid == e.pid && text_eq g.status status
    then record g {
      connections = g.connections + 1;
      targets = add_target (target_of_flow e.flow) g.targets;
    }
      ∷ groups
    else g ∷ others

abbrev pub status_of : (Text → Bool) → Entry → Text
status_of whitelisted e = if whitelisted e.name then proxy_text else direct_text

-- The loop over the snapshot.
unfoldable pub group_loop : (Text → Bool) → List Entry → List ProcessStatus → List ProcessStatus
unfolding count_in
group_loop whitelisted [] groups = groups
group_loop whitelisted (e ∷ entries) groups =
    group_loop whitelisted entries
      (if is_empty e.name then groups else count_in e (status_of whitelisted e) groups)

unfoldable pub process_statuses : Env → World → List Entry → List ProcessStatus
unfolding group_loop is_whitelisted
process_statuses env w entries = group_loop (is_whitelisted env w) entries []

-- `GetProcessStatuses`
unfoldable pub get_process_statuses :
    {S : Type 0} → Env → List Entry → Engine S → List ProcessStatus
unfolding process_statuses
get_process_statuses env entries e = elim e.interceptor [
  | none ↦ []
  | some w ↦ process_statuses env w entries
]
