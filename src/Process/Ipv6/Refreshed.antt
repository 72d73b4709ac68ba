-- ===== src/Process/Ipv6/Refreshed.antt =====
-- ipv6refresh_windows.go: a refresh of the IPv6 TCP snapshot, with its gate, its cache and its parser.
use go_pass.Base.{
  ℕ, ◌≡◌, refl, sym, ap, ◌∙◌, Option, none, some, false, arith, Bytes, Text, List, [], ◌∷◌, drop,
  read_le32,
}
use go_pass.Process.Flows.{Ipv6TcpFlow, Ipv6TcpFlow-discrete}
use go_pass.Process.Names.{PidCache, sweep}
use go_pass.Process.Names.Cache.{IsRecord, IsRecent, idle, recent, get_lem, sweep_lem}
use go_pass.Process.Rows.Fold.{chunks}
use go_pass.Process.Rows.Scan.{last_row}
use go_pass.Process.Rows.Layout.{IsBytes, tcp6_row, last_row-tcp6_row}
use go_pass.Process.Resolver.Refresh.{IsTableOf}
use go_pass.Process.Table.{ok}
use go_pass.Process.Ipv6.{
  Snapshot, Machine6, is_waiting, name_from, run_gate, refresh_work, refresh_tcp6, lookup_ipv6_tcp,
}
use go_pass.Process.Ipv6.Parsed.{name_value, IsNaming, parse_ipv6_tcp_rows_lem}

-- The cache holds the names of processes, which do not change.
abbrev pub IsFaithful : (ℕ → Text) → PidCache → Type 0
IsFaithful names c = IsRecord (λ _. names) c

IsRecent-name :
    (names : ℕ → Text) (now pid : ℕ) (name : Text)
    → names 0 ≡ []
    → IsRecent (λ _. names) now pid name
    → name ≡ names pid
IsRecent-name names now pid name system (idle e f) = f ∙ sym system ∙ ap names (sym e)
IsRecent-name names now pid name system (recent t young e) = e

cache-IsNaming :
    (names : ℕ → Text) (now : ℕ)
    → names 0 ≡ []
    → IsNaming names (name_from names now) (IsFaithful names)
cache-IsNaming names now system = record {
  gives =
      λ c pid good. IsRecent-name names now pid _ system (get_lem (λ _. names) c pid now good).1;
  stays = λ c pid good. (get_lem (λ _. names) c pid now good).0;
}

-- A refresh that took the table.
pub record Refreshed6 (m : Machine6) (rows : List Bytes)
    (r : Option (PidCache × Snapshot Ipv6TcpFlow)) : Type 0 where
  pub cache : PidCache
  pub snapshot : Snapshot Ipv6TcpFlow
  pub result : r ≡ some (cache, snapshot)
  pub faithful : IsFaithful m.resolve cache
  pub advanced : snapshot.last ≡ some m.finished
  pub found :
      (flow : Ipv6TcpFlow)
      → lookup_ipv6_tcp snapshot flow
        ≡ last_row Ipv6TcpFlow-discrete tcp6_row (name_value m.resolve) flow rows none

-- With names that do not change, a cache of such names, a gate that is open and a table of bytes with
-- its count: `refreshWith` ends with no access out of range, closes the gate from the time it ends, keeps
-- a cache of such names, and a lookup then finds for every flow the name of the last row that has the
-- flow, is not in the closed state and has a process with a name; where a row has its state, its addresses
-- and ports and its process is as Windows lays it out.
pub refresh_tcp6_lem :
    (m : Machine6) (c : PidCache) (s : Snapshot Ipv6TcpFlow) (buf : Bytes) (count : ℕ)
    → m.resolve 0 ≡ []
    → IsFaithful m.resolve c
    → is_waiting s.last m.arrived ≡ false
    → m.table ≡ ok buf
    → IsTableOf 56 buf
    → IsBytes buf
    → read_le32 buf 0 ≡ some count
    → Refreshed6 m (chunks 56 count (drop 4 buf)) (refresh_tcp6 m c s)
unfolding refresh_tcp6 run_gate refresh_work lookup_ipv6_tcp
refresh_tcp6_lem m c s [] count system faithful gate table t bytes counted =
    absurd (omega (arith, t.enough))
refresh_tcp6_lem m c s (b ∷ bs) count system faithful gate table t bytes counted =
    let swept = (sweep_lem (λ _. m.resolve) c m.now faithful).0 in
    let parsed =
      parse_ipv6_tcp_rows_lem m.resolve (name_from m.resolve m.now) (IsFaithful m.resolve)
        (cache-IsNaming m.resolve m.now system) (sweep m.now c) swept (b ∷ bs) count counted t in
    record {
      cache = parsed.end.0;
      snapshot = record { flows = parsed.end.1; last = some m.finished };
      result = rw (gate, table, refresh_work, parsed.result) refl;
      faithful = parsed.good;
      advanced = refl;
      found = λ flow.
          parsed.found flow
          ∙ last_row-tcp6_row Ipv6TcpFlow-discrete (name_value m.resolve) flow count (b ∷ bs) bytes;
    }
