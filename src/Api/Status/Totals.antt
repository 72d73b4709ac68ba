-- ===== src/Api/Status/Totals.antt =====
-- api.go, `handleStatus`: the totals that the page shows.
use go_pass.Base.{
  ◌+◌, ◌≡◌, refl, Bool, not, List, [], ◌∷◌, Option, some, inl, inr, arith, Bool-cases, Text,
  text_eq, length, All,
}
use go_pass.Process.Flows.{Entry}
use go_pass.Engine.Capture.{State}
use go_pass.Engine.Control.{Engine}
use go_pass.Engine.Intercept.{Env, World, is_whitelisted}
use go_pass.Engine.Stats.{Stats}
use go_pass.Engine.Statuses.{
  ProcessStatus, proxy_text, direct_text, process_statuses, get_process_statuses,
}
use go_pass.Engine.Statuses.Counted.{
  connections_with, named_entries, IsKnown, Tallies, process_statuses-Tallies,
}
use go_pass.Api.{get_method}
use go_pass.Api.Status.{Counts, count_loop, StatusPage, handle_status}

-- What the loop adds to the four totals.
record Adds (c : Counts) (statuses : List ProcessStatus) (c' : Counts) : Type 0 where
  programs :
      c'.proxy_programs + c'.direct_programs
      ≡ length statuses + (c.proxy_programs + c.direct_programs)
  proxied : c'.proxy_connections ≡ connections_with proxy_text statuses + c.proxy_connections
  direct : c'.direct_connections ≡ connections_with direct_text statuses + c.direct_connections

count_loop-Adds :
    (statuses : List ProcessStatus) (c : Counts)
    → All IsKnown statuses
    → Adds c statuses (count_loop statuses c)
unfolding count_loop
count_loop-Adds [] c h = record {
  programs = omega arith;
  proxied = omega arith;
  direct = omega arith;
}
count_loop-Adds (p ∷ statuses) c (h, hs) = elim (Bool-cases (text_eq p.status proxy_text)) [
  | inl proxied ↦
      let rest =
        count_loop-Adds statuses
          (record c {
            proxy_programs = c.proxy_programs + 1;
            proxy_connections = c.proxy_connections + p.connections;
          })
          hs in
      record {
        programs = ground (arith, rest.programs);
        proxied = ground (arith, rest.proxied);
        direct = ground (arith, rest.direct, h);
      }
  | inr other ↦
      let rest =
        count_loop-Adds statuses
          (record c {
            direct_programs = c.direct_programs + 1;
            direct_connections = c.direct_connections + p.connections;
          })
          hs in
      record {
        programs = ground (arith, rest.programs);
        proxied = ground (arith, rest.proxied);
        direct = ground (arith, rest.direct, h);
      }
]

-- The page is true of the snapshot.
pub record Shows (whitelisted : Text → Bool) (entries : List Entry) (state : State) (stats : Stats)
    (page : StatusPage) : Type 0 where
  pub told : page.interceptor ≡ state
  pub tunnels : page.connections ≡ stats.connections
  pub proxied : page.counts.proxy_connections ≡ named_entries whitelisted entries
  pub direct :
      page.counts.direct_connections ≡ named_entries (λ name. not (whitelisted name)) entries
  pub groups : Tallies whitelisted entries page.processes
  pub programs : page.counts.proxy_programs + page.counts.direct_programs ≡ length page.processes

pub record ShowsIn (whitelisted : Text → Bool) (entries : List Entry) (state : State)
    (stats : Stats) (o : Option StatusPage) : Type 0 where
  pub page : StatusPage
  pub result : o ≡ some page
  pub shows : Shows whitelisted entries state stats page

-- While the interceptor runs, a request for the status page is answered with a page that shows the interceptor's
-- state and the number of tunnels, and as proxied and direct connections exactly the numbers of connections of
-- the snapshot that belong to a named program on the whitelist and to one that is not; its programs are as many
-- as its list has groups, no two groups have the same process and status, and none lists more than four targets.
pub handle_status_lem :
    {S : Type 0} (env : Env) (entries : List Entry) (stats : Stats) (state : State) (e : Engine S)
    (w : World)
    → e.interceptor ≡ some w
    → ShowsIn
        (is_whitelisted env w)
        entries
        state
        stats
        (handle_status env entries stats state get_method e)
unfolding handle_status get_process_statuses
handle_status_lem env entries stats state e w runs =
    let tally = process_statuses-Tallies env w entries in
    let counted =
      count_loop-Adds (process_statuses env w entries)
        (record {
          proxy_programs = 0;
          direct_programs = 0;
          proxy_connections = 0;
          direct_connections = 0;
        })
        tally.known in
    record {
      page = record {
        interceptor = state;
        connections = stats.connections;
        counts = count_loop (process_statuses env w entries) (record {
          proxy_programs = 0;
          direct_programs = 0;
          proxy_connections = 0;
          direct_connections = 0;
        });
        processes = process_statuses env w entries;
      };
      result = rw (runs, handle_status) refl;
      shows = record {
        told = refl;
        tunnels = refl;
        proxied = omega (arith, counted.proxied, tally.proxied);
        direct = omega (arith, counted.direct, tally.direct);
        groups = tally;
        programs = omega (arith, counted.programs);
      };
    }
