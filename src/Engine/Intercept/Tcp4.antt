-- ===== src/Engine/Intercept/Tcp4.antt =====
-- windivert.go, `handleIPv4TCP`.
use go_pass.Base.{
  ℕ, ◌+◌, Bool, true, false, not, ◌&&◌, ◌||◌, Option, none, some, ltb, ◌==◌, if◌then◌else◌, bit_and,
  Bytes, ◌>>=◌, be16, get_elem?, length,
}
use go_pass.Engine.Addr.{Ipv4, is_private_or_local4}
use go_pass.Engine.ConnTrack.{has_mapped}
use go_pass.Engine.FlowPolicy
use go_pass.Engine.FlowPolicy.{
  PolicyKind, pass, intercept, undecided, FlowKey, flow_key_v4, is_connection_start, is_intercept,
  tcp_fin, tcp_rst,
}
use go_pass.Engine.Batch.{WinDivertAddress}
use go_pass.Engine.Intercept.{
  Env, World, Flow, decide_new_flow, named, is_proxy, send_pass, read_ip4, le32,
}
use go_pass.Engine.Intercept.Hijack.{hijack_tcp, hijack_with_port, reverse_nat}

-- The fields that the handler reads.
pub record TcpHeader : Type 0 where
  pub src_port : ℕ
  pub dst_port : ℕ
  pub flags : ℕ
  pub src : Ipv4
  pub dst : Ipv4

unfoldable pub read_tcp4 : Bytes → ℕ → Option TcpHeader
read_tcp4 pkt ihl = do
  src_port ← be16 pkt ihl
  dst_port ← be16 pkt (ihl + 2)
  flags ← get_elem? pkt (ihl + 13)
  dst ← read_ip4 pkt 16
  src ← read_ip4 pkt 12
  some (record { src_port = src_port; dst_port = dst_port; flags = flags; src = src; dst = dst })

-- `flags&(tcpFIN|tcpRST) != 0`
unfoldable pub is_closing : ℕ → Bool
is_closing flags = not (bit_and flags (tcp_fin + tcp_rst) == 0)

abbrev pub is_undecided : PolicyKind → Bool
is_undecided undecided = true
is_undecided pass = false
is_undecided intercept = false

-- The policy is dropped: the flow closes, or a handshake that found no process tries again.
unfoldable pub drops_policy : PolicyKind → ℕ → Bool
unfolding is_closing
drops_policy kind flags = is_closing flags || (is_undecided kind && is_connection_start flags)

abbrev pub key_of : TcpHeader → FlowKey
key_of h = flow_key_v4 (le32 h.src) (le32 h.dst) h.src_port h.dst_port

abbrev pub set_policy : Env → World → FlowKey → PolicyKind → ℕ → World
set_policy env w key kind port = record w {
  policies = FlowPolicy.set env.now w.policies key kind port;
}

-- A hijack at the start of a flow or in place of a stale mapping, and the policy that it leaves.
unfoldable pub hijack_flow : Env → World → Bytes → WinDivertAddress → ℕ → TcpHeader → Option World
hijack_flow env w pkt addr ihl h = do
  hijacked ← hijack_tcp env w pkt addr h.src h.dst h.src_port h.dst_port ihl
  some (
      if hijacked.1 == 0
      then set_policy env hijacked.0 (key_of h) pass 0
      else set_policy env hijacked.0 (key_of h) intercept hijacked.1)

-- A packet of a flow whose policy holds.
unfoldable pub settled_tcp4 :
    Env → World → Bytes → WinDivertAddress → ℕ → TcpHeader → PolicyKind → ℕ → Option World
unfolding hijack_flow
settled_tcp4 env w pkt addr ihl h kind mapped =
    if is_intercept kind
    then if not (mapped == 0) && has_mapped w.tracker mapped
      then hijack_with_port env w pkt addr mapped w.tproxy_port ihl
      else hijack_flow env w pkt addr ihl h
    else send_pass env w pkt addr

abbrev pub flow_of : TcpHeader → Flow
flow_of h = record {
  local_ip = le32 h.src;
  local_port = h.src_port;
  remote_ip = le32 h.dst;
  remote_port = h.dst_port;
}

abbrev pub decide_tcp4 : Env → World → TcpHeader → PolicyKind
decide_tcp4 env w h =
    decide_new_flow env w (is_connection_start h.flags) (named (env.lookup_tcp (flow_of h)))

-- A packet of a flow that has no policy.
unfoldable pub new_tcp4 : Env → World → Bytes → WinDivertAddress → ℕ → TcpHeader → Option World
unfolding hijack_flow is_closing
new_tcp4 env w pkt addr ihl h =
    if is_closing h.flags
    then send_pass env w pkt addr
    else if is_intercept (decide_tcp4 env w h)
    then hijack_flow env w pkt addr ihl h
    else send_pass env (set_policy env w (key_of h) (decide_tcp4 env w h) 0) pkt addr

unfoldable pub route_tcp4 : Env → World → Bytes → WinDivertAddress → ℕ → TcpHeader → Option World
unfolding settled_tcp4 new_tcp4 drops_policy
route_tcp4 env w pkt addr ihl h = elim (FlowPolicy.get w.policies (key_of h)) [
  | none ↦ new_tcp4 env w pkt addr ihl h
  | some (kind, mapped) ↦
      if drops_policy kind h.flags
      then new_tcp4 env (record w { policies = FlowPolicy.delete w.policies (key_of h) }) pkt addr
          ihl h
      else settled_tcp4 env w pkt addr ihl h kind mapped
]

-- The tests on the header, in order.
unfoldable pub dispatch_tcp4 : Env → World → Bytes → WinDivertAddress → ℕ → TcpHeader → Option World
unfolding route_tcp4
dispatch_tcp4 env w pkt addr ihl h =
    if h.src_port == w.tproxy_port
    then reverse_nat env w pkt addr ihl
    else if is_proxy w h.dst
    then send_pass env w pkt addr
    else if is_private_or_local4 h.dst.b0 h.dst.b1 h.dst.b2 h.dst.b3
    then send_pass env w pkt addr
    else route_tcp4 env w pkt addr ihl h

unfoldable pub handle_ipv4_tcp : Env → World → Bytes → WinDivertAddress → ℕ → Option World
unfolding dispatch_tcp4 read_tcp4
handle_ipv4_tcp env w pkt addr ihl =
    if ltb (length pkt) (ihl + 20)
    then send_pass env w pkt addr
    else (do h ← read_tcp4 pkt ihl; dispatch_tcp4 env w pkt addr ihl h)
