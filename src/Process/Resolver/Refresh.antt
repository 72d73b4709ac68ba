-- ===== src/Process/Resolver/Refresh.antt =====
-- process_windows.go: what is found in the snapshot after a refresh.
use go_pass.Base.{
  ℕ, ◌+◌, ◌≤◌, ◌<◌, ◌≡◌, refl, ap, ◌∙◌, Option, none, some, Bool, true, false, arith, ite, Bytes,
  Text, List, [], ◌∷◌, length, drop, Returns, returns, read_le32, read_le32-lt, lookup, retain,
  lookup-insert,
}
use go_pass.Process.Flows.{Flow, Entry, UdpFlow, UdpEntry, Flow-discrete, UdpFlow-discrete}
use go_pass.Process.Rows.{word, row_loop}
use go_pass.Process.Rows.Fold.{chunks}
use go_pass.Process.Rows.Scan.{last_row, meaning, Scanned, row_loop-Scanned}
use go_pass.Process.Rows.Layout.{IsBytes, tcp_row, last_row-tcp_row}
use go_pass.Process.Table.{TableResult, ok, err}
use go_pass.Process.Resolver.{
  Resolver, Machine, decode_tcp, TcpScan, add_tcp, scan_row, refresh_tcp, decode_udp, UdpScan,
  add_udp, refresh_udp, refresh, is_seen, lookup_with_refresh, lookup_tcp, cached_process_name,
}

decode_tcp-Returns : (row : Bytes) → length row ≡ 24 → Returns (decode_tcp row)
unfolding decode_tcp
decode_tcp-Returns row h =
    let (a, e0) = read_le32-lt row 0 (omega arith) in
    let (b, e1) = read_le32-lt row 4 (omega arith) in
    let (c, e2) = read_le32-lt row 8 (omega arith) in
    let (d, e3) = read_le32-lt row 12 (omega arith) in
    let (f, e4) = read_le32-lt row 16 (omega arith) in
    let (g, e5) = read_le32-lt row 20 (omega arith) in rw (e0, e1, e2, e3, e4, e5) (returns _)

decode_udp-Returns : (row : Bytes) → length row ≡ 12 → Returns (decode_udp row)
unfolding decode_udp
decode_udp-Returns row h =
    let (a, e0) = read_le32-lt row 0 (omega arith) in
    let (b, e1) = read_le32-lt row 4 (omega arith) in
    let (c, e2) = read_le32-lt row 8 (omega arith) in rw (e0, e1, e2) (returns _)

-- The process of an entry.
abbrev pub pid_of : Option Entry → Option ℕ
pid_of none = none
pid_of (some e) = some e.pid

abbrev pub udp_pid_of : Option UdpEntry → Option ℕ
udp_pid_of none = none
udp_pid_of (some e) = some e.pid

abbrev tcp_view : TcpScan → Flow → Option ℕ
tcp_view s flow = pid_of (lookup Flow-discrete flow s.flows)

abbrev udp_view : UdpScan → UdpFlow → Option ℕ
udp_view s flow = udp_pid_of (lookup UdpFlow-discrete flow s.flows)

tcp_view-add_tcp :
    (resolve : ℕ → Text) (now : ℕ) (s : TcpScan) (flow : Flow) (pid : ℕ) (j : Flow)
    → tcp_view (add_tcp resolve now s flow pid) j
      ≡ ite (Flow-discrete flow j) (some pid) (tcp_view s j)
unfolding add_tcp
tcp_view-add_tcp resolve now s flow pid j = ground (
  arith,
  lookup-insert Flow-discrete j flow
      (record { flow = flow; pid = pid; name = (cached_process_name resolve s.resolver pid now).1 })
      s.flows,
)

udp_view-add_udp :
    (resolve : ℕ → Text) (now : ℕ) (s : UdpScan) (flow : UdpFlow) (pid : ℕ) (j : UdpFlow)
    → udp_view (add_udp resolve now s flow pid) j
      ≡ ite (UdpFlow-discrete flow j) (some pid) (udp_view s j)
unfolding add_udp
udp_view-add_udp resolve now s flow pid j = ground (
  arith,
  lookup-insert UdpFlow-discrete j flow
      (record { flow = flow; pid = pid; name = (cached_process_name resolve s.resolver pid now).1 })
      s.flows,
)

tcp_scan :
    (resolve : ℕ → Text) (now : ℕ) (buf : Bytes) (count : ℕ) (s : TcpScan)
    → 4 ≤ length buf
    → length buf + 24 < word
    → Scanned Flow-discrete decode_tcp
        (add_tcp resolve now)
        24
        decode_tcp-Returns
        (λ _. Unit {0})
        tcp_view
        some
        (λ _ _ _ _. tt)
        (λ s k pid j _. tcp_view-add_tcp resolve now s k pid j)
        s
        (chunks 24 count (drop 4 buf))
        (row_loop 24 (scan_row decode_tcp (add_tcp resolve now)) buf count 0 s)
tcp_scan resolve now buf count s enough small =
    row_loop-Scanned _ _ _ _ _ _ _ _ _ _ buf count s enough small tt

add_udp-flows :
    (resolve : ℕ → Text) (now : ℕ) (kept : List (Flow × Entry)) (s : UdpScan) (flow : UdpFlow)
    (pid : ℕ)
    → s.resolver.flows ≡ kept
    → (add_udp resolve now s flow pid).resolver.flows ≡ kept
unfolding add_udp cached_process_name
add_udp-flows resolve now kept s flow pid e = e

udp_scan :
    (resolve : ℕ → Text) (now : ℕ) (buf : Bytes) (count : ℕ) (s : UdpScan)
    → 4 ≤ length buf
    → length buf + 12 < word
    → Scanned UdpFlow-discrete decode_udp
        (add_udp resolve now)
        12
        decode_udp-Returns
        (λ s'. s'.resolver.flows ≡ s.resolver.flows)
        udp_view
        some
        (add_udp-flows resolve now s.resolver.flows)
        (λ s k pid j _. udp_view-add_udp resolve now s k pid j)
        s
        (chunks 12 count (drop 4 buf))
        (row_loop 12 (scan_row decode_udp (add_udp resolve now)) buf count 0 s)
udp_scan resolve now buf count s enough small =
    row_loop-Scanned _ _ _ _ _ _ _ _ _ _ buf count s enough small refl

-- A table that the DLL can return: with room for its count, and below 4 GiB by one row.
pub record IsTableOf (row_size : ℕ) (buf : Bytes) : Type 0 where
  pub enough : 4 ≤ length buf
  pub small : length buf + row_size < word

-- A refresh that took the TCP table: the snapshot has the process of the last row of each flow.
pub record Refreshed (buf : Bytes) (count : ℕ) (r : Option (Resolver × Bool)) : Type 0 where
  pub resolver : Resolver
  pub result : r ≡ some (resolver, true)
  pub found :
      (flow : Flow)
      → pid_of (lookup_tcp resolver flow)
        ≡ last_row Flow-discrete (meaning decode_tcp) some flow (chunks 24 count (drop 4 buf)) none

-- On a TCP table with its count, `refreshTCP` ends with no error and no access out of range, and a
-- lookup then finds, for every flow, the process of the last row in the table that has the flow and is
-- not closed, and nothing where there is no such row.
pub refresh_tcp_lem :
    (m : Machine) (r : Resolver) (buf : Bytes) (count : ℕ)
    → m.tcp_table ≡ ok buf
    → IsTableOf 24 buf
    → read_le32 buf 0 ≡ some count
    → Refreshed buf count (refresh_tcp m r)
unfolding refresh_tcp lookup_tcp lookup
refresh_tcp_lem m r [] count table t c = absurd (omega (arith, t.enough))
refresh_tcp_lem m r (b ∷ bs) count table t c =
    let scan =
      tcp_scan m.resolve m.tcp_now (b ∷ bs) count
        (record { resolver = r; flows = []; seen_pids = [] }) t.enough t.small in
    record {
      resolver = record (scan.end.resolver) {
        pid_cache = retain (is_seen scan.end.seen_pids) scan.end.resolver.pid_cache;
        flows = scan.end.flows;
      };
      result = rw (table, refresh_tcp, c, scan.result) refl;
      found = scan.found;
    }

-- The UDP half of a refresh leaves the TCP snapshot alone.
pub record UdpRefreshed (r : Resolver) (o : Option (Resolver × Bool)) : Type 0 where
  pub pair : Resolver × Bool
  pub result : o ≡ some pair
  pub same_flows : pair.0.flows ≡ r.flows

abbrev pub IsUdpTable : TableResult → Type 0
IsUdpTable (ok []) = Unit {0}
IsUdpTable (ok (b ∷ bs)) = IsTableOf 12 (b ∷ bs)
IsUdpTable (err e) = Unit {0}

refresh_udp-UdpRefreshed :
    (m : Machine) (r : Resolver) (table : TableResult)
    → m.udp_table ≡ table
    → IsUdpTable table
    → UdpRefreshed r (refresh_udp m r)
unfolding refresh_udp
refresh_udp-UdpRefreshed m r (err e) f h = record {
  pair = (r, false);
  result = rw (f, refresh_udp) refl;
  same_flows = refl;
}
refresh_udp-UdpRefreshed m r (ok []) f h = record {
  pair = (record r { udp_flows = [] }, true);
  result = rw (f, refresh_udp) refl;
  same_flows = refl;
}
refresh_udp-UdpRefreshed m r (ok (b ∷ bs)) f h =
    let (count, c) = read_le32-lt (b ∷ bs) 0 (ground (arith, h.enough)) in
    let scan =
      udp_scan m.resolve m.udp_now (b ∷ bs) count (record { resolver = r; flows = [] }) h.enough
        h.small in
    record {
      pair = (record (scan.end.resolver) { udp_flows = scan.end.flows }, true);
      result = rw (f, refresh_udp, c, scan.result) refl;
      same_flows = scan.kept;
    }

-- `Refresh` finds what `refreshTCP` finds.
pub refresh_lem :
    (m : Machine) (r : Resolver) (buf : Bytes) (count : ℕ)
    → m.tcp_table ≡ ok buf
    → IsTableOf 24 buf
    → IsUdpTable m.udp_table
    → read_le32 buf 0 ≡ some count
    → Refreshed buf count (refresh m r)
unfolding refresh lookup_tcp
refresh_lem m r buf count table t u c =
    let tcp = refresh_tcp_lem m r buf count table t c in
    let udp = refresh_udp-UdpRefreshed m tcp.resolver m.udp_table refl u in
    record {
      resolver = udp.pair.0;
      result = rw (tcp.result, udp.result) refl;
      found =
          λ flow. ap (λ fl. pid_of (lookup Flow-discrete flow fl)) udp.same_flows ∙ tcp.found flow;
    }

-- A flow that neither the snapshot nor the one met under the lock has: on a TCP table of bytes with its
-- count, `LookupWithRefresh` ends with no access out of range and finds the process of the last row in
-- the table that has the flow and is not in the closed state, and nothing where there is no such row;
-- where a row has its state, its addresses and ports and its process is as Windows lays it out.
pub lookup_with_refresh_lem :
    (m : Machine) (r waited : Resolver) (flow : Flow) (buf : Bytes) (count : ℕ)
    → lookup_tcp r flow ≡ none
    → lookup_tcp waited flow ≡ none
    → m.tcp_table ≡ ok buf
    → IsTableOf 24 buf
    → IsUdpTable m.udp_table
    → IsBytes buf
    → read_le32 buf 0 ≡ some count
    → (after : Resolver) × (found : Option Entry) × (lookup_with_refresh m r waited flow
        ≡ some (after, found))
      × (pid_of found
          ≡ last_row Flow-discrete tcp_row some flow (chunks 24 count (drop 4 buf)) none)
unfolding lookup_with_refresh
lookup_with_refresh_lem m r waited flow buf count miss missed table t u bytes c =
    let done = refresh_lem m waited buf count table t u c in
    (
      done.resolver,
      lookup_tcp done.resolver flow,
      rw (miss, lookup_with_refresh, missed, done.result) refl,
      done.found flow ∙ last_row-tcp_row Flow-discrete some flow count buf bytes,
    )
