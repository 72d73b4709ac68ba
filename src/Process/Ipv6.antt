-- ===== src/Process/Ipv6.antt =====
-- internal/process/ipv6_windows.go and ipv6refresh_windows.go: the IPv6 tables, refreshed through a gate
-- and named through a cache. `name_of` is the function for names with its state. `none` is an access
-- out of range.
pub mod Parsed
pub mod Refreshed
use go_pass.Base.{
  ℕ, ◌+◌, ◌-◌, ◌*◌, ◌%◌, Bool, true, false, ◌||◌, List, [], ◌∷◌, Option, none, some, ltb, ◌==◌,
  if◌then◌else◌, Bytes, Text, length, lookup, insert, ◌>>=◌, slice_to, read_le32,
}
use go_pass.Process.Flows.{
  Ipv6TcpFlow, Ipv6UdpFlow, Ipv6TcpFlow-discrete, Ipv6UdpFlow-discrete, ntohs,
}
use go_pass.Process.Names.{PidCache}
use go_pass.Process.Names
use go_pass.Process.Resolver.{scan_row}
use go_pass.Process.Rows.{row_loop}
use go_pass.Process.Table.{TableResult, ok, err}

-- A row of the TCP table; the inner none is a closed connection.
unfoldable pub decode_tcp6 : Bytes → Option (Option (Ipv6TcpFlow × ℕ))
decode_tcp6 row = do
  state ← read_le32 row 48
  local_ip ← slice_to row 0 16
  remote_ip ← slice_to row 24 40
  local_port ← read_le32 row 20
  remote_port ← read_le32 row 44
  pid ← read_le32 row 52
  let flow : Ipv6TcpFlow = record {
    local_ip = local_ip;
    local_port = ntohs (local_port % 65536);
    remote_ip = remote_ip;
    remote_port = ntohs (remote_port % 65536);
  }
  some (if state == 1 then none else some (flow, pid))

unfoldable pub decode_udp6 : Bytes → Option (Option (Ipv6UdpFlow × ℕ))
decode_udp6 row = do
  local_ip ← slice_to row 0 16
  local_port ← read_le32 row 20
  pid ← read_le32 row 24
  some (some (record { local_ip = local_ip; local_port = ntohs (local_port % 65536) }, pid))

-- The map of the loop with the state of the names; a row without a name is skipped.
unfoldable pub add_named :
    {C K : Type 0}
    → Discrete K
    → (C → ℕ → C × Text)
    → C × List (K × Text)
    → K
    → ℕ
    → C × List (K × Text)
add_named dec name_of s k pid =
    let named = name_of s.0 pid in
    elim named.1 [ [] ↦ (named.0, s.1) | c ∷ cs ↦ (named.0, insert dec k (c ∷ cs) s.1) ]

unfoldable pub parse_ipv6_tcp_rows :
    {C : Type 0} → (C → ℕ → C × Text) → C → Bytes → Option (C × List (Ipv6TcpFlow × Text))
unfolding decode_tcp6 add_named
parse_ipv6_tcp_rows name_of c buf = if ltb (length buf) 4 then some (c, []) else (do
  count ← read_le32 buf 0
  row_loop 56 (scan_row decode_tcp6 (add_named Ipv6TcpFlow-discrete name_of)) buf count 0 (c, []))

unfoldable pub parse_ipv6_udp_rows :
    {C : Type 0} → (C → ℕ → C × Text) → C → Bytes → Option (C × List (Ipv6UdpFlow × Text))
unfolding decode_udp6 add_named
parse_ipv6_udp_rows name_of c buf = if ltb (length buf) 4 then some (c, []) else (do
  count ← read_le32 buf 0
  row_loop 28 (scan_row decode_udp6 (add_named Ipv6UdpFlow-discrete name_of)) buf count 0 (c, []))

abbrev pub ipv6_refresh_min_interval : ℕ
ipv6_refresh_min_interval = 200 * 1000000

-- A snapshot with its gate, which a new process leaves open: `last` is none for Go's zero time.
pub record Snapshot (K : Type 0) : Type 0 where
  pub flows : List (K × Text)
  pub last : Option ℕ

abbrev pub is_waiting : Option ℕ → ℕ → Bool
is_waiting none now = false
is_waiting (some last) now = ltb (now - last) ipv6_refresh_min_interval

-- What one refresh meets: the table, the names, and the times of the three calls of `time.Now`.
pub record Machine6 : Type 0 where
  pub table : TableResult
  pub resolve : ℕ → Text
  pub arrived : ℕ
  pub now : ℕ
  pub finished : ℕ

-- `refreshGate.run`: the work gives the new state, or the inner none where it returns false.
unfoldable pub run_gate :
    {S : Type 0} → ℕ → ℕ → Option ℕ → S → Option (Option S) → Option (S × Option ℕ)
run_gate arrived finished last old work =
    if is_waiting last arrived
    then some (old, last)
    else work >>= λ done. some (elim done [ none ↦ (old, last) | some new ↦ (new, some finished) ])

abbrev pub name_from : (ℕ → Text) → ℕ → PidCache → ℕ → PidCache × Text
name_from resolve now c pid = Names.get resolve c pid now

-- The work of a refresh: a table that cannot be had, or an empty one, is no new snapshot.
unfoldable pub refresh_work :
    {K : Type 0}
    → (Bytes → Option (PidCache × List (K × Text)))
    → TableResult
    → Option (Option (PidCache × List (K × Text)))
refresh_work parse (err _) = some none
refresh_work parse (ok []) = some none
refresh_work parse (ok (b ∷ bs)) = do parsed ← parse (b ∷ bs); some (some parsed)

-- `ipv6TCPResolver.refreshWith`, on the cache of names and the snapshot.
unfoldable pub refresh_tcp6 :
    Machine6 → PidCache → Snapshot Ipv6TcpFlow → Option (PidCache × Snapshot Ipv6TcpFlow)
unfolding parse_ipv6_tcp_rows run_gate refresh_work
refresh_tcp6 m c s = do
  let parse = parse_ipv6_tcp_rows (name_from m.resolve m.now) (Names.sweep m.now c)
  gated ← run_gate m.arrived m.finished s.last (c, s.flows) (refresh_work parse m.table)
  some (gated.0.0, record { flows = gated.0.1; last = gated.1 })

unfoldable pub refresh_udp6 :
    Machine6 → PidCache → Snapshot Ipv6UdpFlow → Option (PidCache × Snapshot Ipv6UdpFlow)
unfolding parse_ipv6_udp_rows run_gate refresh_work
refresh_udp6 m c s = do
  let parse = parse_ipv6_udp_rows (name_from m.resolve m.now) (Names.sweep m.now c)
  gated ← run_gate m.arrived m.finished s.last (c, s.flows) (refresh_work parse m.table)
  some (gated.0.0, record { flows = gated.0.1; last = gated.1 })

unfoldable pub lookup_ipv6_tcp : Snapshot Ipv6TcpFlow → Ipv6TcpFlow → Option Text
lookup_ipv6_tcp s flow = lookup Ipv6TcpFlow-discrete flow s.flows

unfoldable pub lookup_ipv6_udp : Snapshot Ipv6UdpFlow → Ipv6UdpFlow → Option Text
lookup_ipv6_udp s flow = lookup Ipv6UdpFlow-discrete flow s.flows
