-- ===== src/Process/Resolver.antt =====
-- internal/process/process_windows.go and udp_refresh_windows.go: `Resolver`, the snapshot of the IPv4
-- tables. The two tables as the DLL returns them, the names and the times are what the surroundings
-- answer. The methods take the locks in turn, so a refresh is one step; `none` is an access out of
-- range.
pub mod Refresh
use go_pass.Base.{
  ℕ, zero, suc, ◌+◌, ◌*◌, ◌%◌, Bool, true, false, not, ◌&&◌, List, [], ◌∷◌, Option, none, some,
  ◌==◌, if◌then◌else◌, Bytes, Text, map, ℕ_discrete, lookup, insert, retain, ◌>>=◌, read_le32,
}
use go_pass.Process.Flows.{Flow, Entry, UdpFlow, UdpEntry, Flow-discrete, UdpFlow-discrete, ntohs}
use go_pass.Process.Names.{PidCache, PidCacheEntry}
use go_pass.Process.Names
use go_pass.Process.Rows.{row_loop}
use go_pass.Process.Table.{TableResult, ok, err}

pub record Resolver : Type 0 where
  pub flows : List (Flow × Entry)
  pub udp_flows : List (UdpFlow × UdpEntry)
  pub pid_cache : PidCache

abbrev pub new_resolver : Resolver
new_resolver = record { flows = []; udp_flows = []; pid_cache = [] }

-- What a refresh meets: the tables, the names of processes, and the time of each of its halves.
pub record Machine : Type 0 where
  pub tcp_table : TableResult
  pub udp_table : TableResult
  pub resolve : ℕ → Text
  pub tcp_now : ℕ
  pub udp_now : ℕ

-- The steps of `cachedProcessName` are those of `pidNameCache.get`.
unfoldable pub cached_process_name : (ℕ → Text) → Resolver → ℕ → ℕ → Resolver × Text
cached_process_name resolve r pid now =
    let found = Names.get resolve r.pid_cache pid now in (record r { pid_cache = found.0 }, found.1)

-- The flow and the process of a row of the TCP table; the inner none is a closed connection.
unfoldable pub decode_tcp : Bytes → Option (Option (Flow × ℕ))
decode_tcp row = do
  state ← read_le32 row 0
  local_ip ← read_le32 row 4
  local_port ← read_le32 row 8
  remote_ip ← read_le32 row 12
  remote_port ← read_le32 row 16
  pid ← read_le32 row 20
  let flow : Flow = record {
    local_ip = local_ip;
    local_port = ntohs (local_port % 65536);
    remote_ip = remote_ip;
    remote_port = ntohs (remote_port % 65536);
  }
  some (if state == 1 then none else some (flow, pid))

-- The loop's variables.
pub record TcpScan : Type 0 where
  pub resolver : Resolver
  pub flows : List (Flow × Entry)
  pub seen_pids : List (ℕ × Unit {0})

unfoldable pub add_tcp : (ℕ → Text) → ℕ → TcpScan → Flow → ℕ → TcpScan
add_tcp resolve now s flow pid =
    let named = cached_process_name resolve s.resolver pid now in
    record {
      resolver = named.0;
      flows = insert Flow-discrete flow (record { flow = flow; pid = pid; name = named.1 }) s.flows;
      seen_pids = insert ℕ_discrete pid tt s.seen_pids;
    }

-- A round of the loop, for whatever is decoded and added.
unfoldable pub scan_row {ℓ} :
    {S : Type ℓ} {K : Type 0}
    → (Bytes → Option (Option (K × ℕ)))
    → (S → K → ℕ → S)
    → S
    → Bytes
    → Option S
scan_row decode add s row = do
  m ← decode row
  some (elim m [ none ↦ s | some (k, pid) ↦ add s k pid ])

abbrev pub is_seen : List (ℕ × Unit {0}) → ℕ → PidCacheEntry → Bool
is_seen seen pid e = elim (lookup ℕ_discrete pid seen) [ none ↦ false | some _ ↦ true ]

-- `refreshTCP`; the flag is false where it returns an error.
unfoldable pub refresh_tcp : Machine → Resolver → Option (Resolver × Bool)
unfolding decode_tcp add_tcp scan_row
refresh_tcp m r = elim m.tcp_table [
  | err _ ↦ some (r, false)
  | ok [] ↦ some (record r { flows = [] }, true)
  | ok (b ∷ bs) ↦ do
    count ← read_le32 (b ∷ bs) 0
    scan ←
        row_loop 24 (scan_row decode_tcp (add_tcp m.resolve m.tcp_now)) (b ∷ bs) count 0
          (record { resolver = r; flows = []; seen_pids = [] })
    let kept_names = retain (is_seen scan.seen_pids) scan.resolver.pid_cache
    some (record (scan.resolver) { pid_cache = kept_names; flows = scan.flows }, true)
]

unfoldable pub decode_udp : Bytes → Option (Option (UdpFlow × ℕ))
decode_udp row = do
  local_ip ← read_le32 row 0
  local_port ← read_le32 row 4
  pid ← read_le32 row 8
  some (some (record { local_ip = local_ip; local_port = ntohs (local_port % 65536) }, pid))

pub record UdpScan : Type 0 where
  pub resolver : Resolver
  pub flows : List (UdpFlow × UdpEntry)

unfoldable pub add_udp : (ℕ → Text) → ℕ → UdpScan → UdpFlow → ℕ → UdpScan
add_udp resolve now s flow pid =
    let named = cached_process_name resolve s.resolver pid now in
    record {
      resolver = named.0;
      flows =
          insert UdpFlow-discrete flow (record { flow = flow; pid = pid; name = named.1 }) s.flows;
    }

unfoldable pub refresh_udp : Machine → Resolver → Option (Resolver × Bool)
unfolding decode_udp add_udp scan_row
refresh_udp m r = elim m.udp_table [
  | err _ ↦ some (r, false)
  | ok [] ↦ some (record r { udp_flows = [] }, true)
  | ok (b ∷ bs) ↦ do
    count ← read_le32 (b ∷ bs) 0
    scan ←
        row_loop 12 (scan_row decode_udp (add_udp m.resolve m.udp_now)) (b ∷ bs) count 0
          (record { resolver = r; flows = [] })
    some (record (scan.resolver) { udp_flows = scan.flows }, true)
]

-- `Refresh`: the error of the UDP half is dropped.
unfoldable pub refresh : Machine → Resolver → Option (Resolver × Bool)
unfolding refresh_tcp refresh_udp
refresh m r = do tcp ← refresh_tcp m r; udp ← refresh_udp m tcp.0; some (udp.0, tcp.1)

unfoldable pub lookup_tcp : Resolver → Flow → Option Entry
lookup_tcp r flow = lookup Flow-discrete flow r.flows

unfoldable pub lookup_udp : Resolver → UdpFlow → Option UdpEntry
lookup_udp r flow = elim (lookup UdpFlow-discrete flow r.udp_flows) [
  | some e ↦ some e
  | none ↦
      if not (flow.local_ip == 0)
      then lookup UdpFlow-discrete (record { local_ip = 0; local_port = flow.local_port })
          r.udp_flows
      else none
]

-- `LookupWithRefresh`, `waited` being the snapshot when the lock is held: others may have refreshed it.
unfoldable pub lookup_with_refresh :
    Machine → Resolver → Resolver → Flow → Option (Resolver × Option Entry)
unfolding refresh lookup_tcp
lookup_with_refresh m r waited flow = elim (lookup_tcp r flow) [
  | some e ↦ some (r, some e)
  | none ↦ elim (lookup_tcp waited flow) [
    | some e ↦ some (waited, some e)
    | none ↦ do
      refreshed ← refresh m waited
      some (refreshed.0, if refreshed.1 then lookup_tcp refreshed.0 flow else none)
  ]
]

unfoldable pub lookup_udp_with_refresh :
    Machine → Resolver → Resolver → UdpFlow → Option (Resolver × Option UdpEntry)
unfolding refresh lookup_udp
lookup_udp_with_refresh m r waited flow = elim (lookup_udp r flow) [
  | some e ↦ some (r, some e)
  | none ↦ elim (lookup_udp waited flow) [
    | some e ↦ some (waited, some e)
    | none ↦ do refreshed ← refresh m waited; some (refreshed.0, lookup_udp refreshed.0 flow)
  ]
]

-- `Snapshot`, in some order.
abbrev pub snapshot : Resolver → List Entry
snapshot r = map (λ (e : Flow × Entry). e.1) r.flows
