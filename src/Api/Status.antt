-- ===== src/Api/Status.antt =====
-- api.go, `handleStatus`: the status page.
pub mod Totals
pub mod Examples
use go_pass.Base.{
  ℕ, ◌+◌, Bool, true, false, List, [], ◌∷◌, Option, none, some, if◌then◌else◌, Text, text_eq,
}
use go_pass.Process.Flows.{Entry}
use go_pass.Engine.Capture.{State, stopped}
use go_pass.Engine.Control.{Engine}
use go_pass.Engine.Intercept.{Env}
use go_pass.Engine.Stats.{Stats}
use go_pass.Engine.Statuses.{ProcessStatus, proxy_text, get_process_statuses}
use go_pass.Api.{Method, get_method, post, delete_method, other_method}

pub record Counts : Type 0 where
  pub proxy_programs : ℕ
  pub direct_programs : ℕ
  pub proxy_connections : ℕ
  pub direct_connections : ℕ

-- The loop over the statuses.
unfoldable pub count_loop : List ProcessStatus → Counts → Counts
count_loop [] c = c
count_loop (p ∷ statuses) c = count_loop statuses (
    if text_eq p.status proxy_text
    then record c {
      proxy_programs = c.proxy_programs + 1;
      proxy_connections = c.proxy_connections + p.connections;
    }
    else record c {
      direct_programs = c.direct_programs + 1;
      direct_connections = c.direct_connections + p.connections;
    })

pub record StatusPage : Type 0 where
  pub interceptor : State
  pub connections : ℕ
  pub counts : Counts
  pub processes : List ProcessStatus

-- `InterceptorState`, where the interceptor has this state.
abbrev pub interceptor_state : {S : Type 0} → State → Engine S → State
interceptor_state state e = elim e.interceptor [ none ↦ stopped | some w ↦ state ]

-- none is the error of a wrong method; `entries` is the snapshot.
unfoldable pub handle_status :
    {S : Type 0} → Env → List Entry → Stats → State → Method → Engine S → Option StatusPage
unfolding count_loop get_process_statuses
handle_status env entries stats state method e = elim method [
  | get_method ↦
      let statuses = get_process_statuses env entries e in
      some (record {
        interceptor = interceptor_state state e;
        connections = stats.connections;
        counts = count_loop statuses (record {
          proxy_programs = 0;
          direct_programs = 0;
          proxy_connections = 0;
          direct_connections = 0;
        });
        processes = statuses;
      })
  | post ↦ none
  | delete_method ↦ none
  | other_method ↦ none
]
