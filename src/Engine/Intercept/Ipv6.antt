-- ===== src/Engine/Intercept/Ipv6.antt =====
-- windivert.go: `handleIPv6`, `handleIPv6TCP` and `handleIPv6UDP`. IPv6 of whitelisted processes is
-- dropped, so that they fall back to IPv4.
use go_pass.Base.{
  ℕ, not, ◌||◌, Option, none, some, ltb, ◌==◌, if◌then◌else◌, Bytes, Text, ◌>>=◌, be16, get_elem?,
  length, take, drop,
}
use go_pass.Engine.Addr.{is_private_or_local_v6}
use go_pass.Engine.FlowPolicy
use go_pass.Engine.FlowPolicy.{
  PolicyKind, pass, intercept, undecided, FlowKey, is_connection_start, is_intercept,
}
use go_pass.Engine.Batch.{WinDivertAddress}
use go_pass.Engine.Intercept.{
  Env, World, Ipv6TcpFlow, Ipv6UdpFlow, decide_new_flow, named, send_pass,
}
use go_pass.Engine.Intercept.Tcp4.{is_closing, drops_policy, set_policy}
use go_pass.Engine.Intercept.Udp4.{found_whitelisted}

-- `copy(a[:], pkt[i:i+16])`
abbrev pub slice16 : Bytes → ℕ → Bytes
slice16 pkt i = take 16 (drop i pkt)

pub record Tcp6Header : Type 0 where
  pub src_port : ℕ
  pub dst_port : ℕ
  pub flags : ℕ
  pub src : Bytes
  pub dst : Bytes

unfoldable pub read_tcp6 : Bytes → Option Tcp6Header
read_tcp6 pkt = do
  src_port ← be16 pkt 40
  dst_port ← be16 pkt 42
  flags ← get_elem? pkt 53
  some (record {
    src_port = src_port;
    dst_port = dst_port;
    flags = flags;
    src = slice16 pkt 8;
    dst = slice16 pkt 24;
  })

abbrev pub key6_of : Tcp6Header → FlowKey
key6_of h = record {
  src_ip = h.src;
  dst_ip = h.dst;
  src_port = h.src_port;
  dst_port = h.dst_port;
  ver = 6;
}

abbrev pub flow6_of : Tcp6Header → Ipv6TcpFlow
flow6_of h = record {
  local_ip = h.src;
  local_port = h.src_port;
  remote_ip = h.dst;
  remote_port = h.dst_port;
}

-- A lookup that misses is tried again after a refresh of the table.
abbrev pub or_refreshed : Option Text → Option Text → Option Text
or_refreshed none again = again
or_refreshed (some name) again = some name

abbrev pub decide_tcp6 : Env → World → Tcp6Header → PolicyKind
decide_tcp6 env w h =
    decide_new_flow env w (is_connection_start h.flags)
      (named (or_refreshed (env.lookup_tcp6 (flow6_of h)) (env.lookup_tcp6_refreshed (flow6_of h))))

unfoldable pub new_tcp6 : Env → World → Bytes → WinDivertAddress → Tcp6Header → Option World
unfolding is_closing
new_tcp6 env w pkt addr h =
    if is_closing h.flags
    then send_pass env w pkt addr
    else if is_intercept (decide_tcp6 env w h)
    then some (set_policy env w (key6_of h) intercept 0)
    else send_pass env (set_policy env w (key6_of h) (decide_tcp6 env w h) 0) pkt addr

unfoldable pub route_tcp6 : Env → World → Bytes → WinDivertAddress → Tcp6Header → Option World
unfolding new_tcp6 drops_policy
route_tcp6 env w pkt addr h = elim (FlowPolicy.get w.policies (key6_of h)) [
  | none ↦ new_tcp6 env w pkt addr h
  | some (kind, _) ↦
      if drops_policy kind h.flags
      then new_tcp6 env (record w { policies = FlowPolicy.delete w.policies (key6_of h) }) pkt addr
          h
      else if is_intercept kind
      then some w
      else send_pass env w pkt addr
]

unfoldable pub handle_ipv6_tcp : Env → World → Bytes → WinDivertAddress → Option World
unfolding route_tcp6 read_tcp6
handle_ipv6_tcp env w pkt addr = if ltb (length pkt) 60 then send_pass env w pkt addr else (do
  h ← read_tcp6 pkt
  let passed = send_pass env w pkt addr
  if is_private_or_local_v6 h.dst then passed else route_tcp6 env w pkt addr h)

unfoldable pub handle_ipv6_udp : Env → World → Bytes → WinDivertAddress → Option World
handle_ipv6_udp env w pkt addr =
    let src = slice16 pkt 8 in
    let dst = slice16 pkt 24 in
    if ltb (length pkt) 48 then send_pass env w pkt addr else (do
      dst_port ← be16 pkt 42
      src_port ← be16 pkt 40
      let flow : Ipv6UdpFlow = record { local_ip = src; local_port = src_port }
      let found = or_refreshed (env.lookup_udp6 flow) (env.lookup_udp6_refreshed flow)
      let passed = send_pass env w pkt addr
      if not (dst_port == 443) || is_private_or_local_v6 dst || not (found_whitelisted env w found)
          then passed
          else some w)

unfoldable pub handle_ipv6 : Env → World → Bytes → WinDivertAddress → Option World
unfolding handle_ipv6_tcp handle_ipv6_udp
handle_ipv6 env w pkt addr = if ltb (length pkt) 40 then send_pass env w pkt addr else (do
  next ← get_elem? pkt 6
  let tcp = handle_ipv6_tcp env w pkt addr
  let udp = handle_ipv6_udp env w pkt addr
  let passed = send_pass env w pkt addr
  if next == 6 then tcp else if next == 17 then udp else passed)
