-- ===== src/Engine/Intercept/Fallback.antt =====
-- windivert.go, `handleIPv6TCP`: the flows of whitelisted processes.
use go_pass.Base.{ℕ, ◌≤◌, ◌≡◌, ap, ◌∙◌, false, none, some, arith, length, Bytes}
use go_pass.Engine.Addr.{is_private_or_local_v6}
use go_pass.Engine.FlowPolicy
use go_pass.Engine.FlowPolicy.{
  FlowKey, FlowKey-discrete, policy_of, PolicyKind, pass, intercept, is_connection_start,
}
use go_pass.Engine.FlowPolicy.Sweep.{policy_of-set}
use go_pass.Engine.Batch.{WinDivertAddress}
use go_pass.Engine.Intercept.{Env, World}
use go_pass.Engine.Intercept.Ipv6.{
  Tcp6Header, read_tcp6, key6_of, decide_tcp6, new_tcp6, route_tcp6, handle_ipv6_tcp,
}
use go_pass.Engine.Intercept.Tcp4.{is_closing, drops_policy, set_policy}

-- A whole IPv6 TCP packet to a public address.
pub record IsOutbound6 (pkt : Bytes) (h : Tcp6Header) : Type 0 where
  pub whole : 60 ≤ length pkt
  pub header : read_tcp6 pkt ≡ some h
  pub public : is_private_or_local_v6 h.dst ≡ false

handle-route6 :
    (env : Env) (w : World) (pkt : Bytes) (addr : WinDivertAddress) (h : Tcp6Header)
    → IsOutbound6 pkt h
    → handle_ipv6_tcp env w pkt addr ≡ route_tcp6 env w pkt addr h
unfolding handle_ipv6_tcp
handle-route6 env w pkt addr h o = ground (arith, o.whole, o.header, o.public)

route6_blocked :
    (env : Env) (w : World) (pkt : Bytes) (addr : WinDivertAddress) (h : Tcp6Header) (mapped : ℕ)
    → FlowPolicy.get w.policies (key6_of h) ≡ some (intercept, mapped)
    → is_closing h.flags ≡ false
    → route_tcp6 env w pkt addr h ≡ some w
unfolding route_tcp6 drops_policy
route6_blocked env w pkt addr h mapped e c = ground arith

route6_start :
    (env : Env) (w : World) (pkt : Bytes) (addr : WinDivertAddress) (h : Tcp6Header)
    → FlowPolicy.get w.policies (key6_of h) ≡ none
    → is_closing h.flags ≡ false
    → decide_tcp6 env w h ≡ intercept
    → route_tcp6 env w pkt addr h ≡ some (set_policy env w (key6_of h) intercept 0)
unfolding route_tcp6 new_tcp6
route6_start env w pkt addr h e c d = ground arith

get-set_policy :
    (env : Env) (w : World) (key : FlowKey) (kind : PolicyKind) (port : ℕ)
    → FlowPolicy.get (set_policy env w key kind port).policies key ≡ some (kind, port)
unfolding FlowPolicy.get
get-set_policy env w key kind port =
    ground (arith, policy_of-set env.now w.policies key key kind port)

-- The IPv6 of a whitelisted process is blocked: on the first packet of a flow that is decided to be
-- intercepted, nothing is queued and the flow is recorded as intercepted without a port; the next
-- packet of the flow that does not close it is dropped too and changes nothing, whatever the process
-- lookup says then.
pub ipv6_blocked :
    (env env' : Env) (w : World) (pkt pkt' : Bytes) (addr addr' : WinDivertAddress)
    (h h' : Tcp6Header)
    → IsOutbound6 pkt h
    → FlowPolicy.get w.policies (key6_of h) ≡ none
    → is_closing h.flags ≡ false
    → decide_tcp6 env w h ≡ intercept
    → IsOutbound6 pkt' h'
    → key6_of h' ≡ key6_of h
    → is_closing h'.flags ≡ false
    → (handle_ipv6_tcp env w pkt addr ≡ some (set_policy env w (key6_of h) intercept 0))
      × (handle_ipv6_tcp env' (set_policy env w (key6_of h) intercept 0) pkt' addr'
          ≡ some (set_policy env w (key6_of h) intercept 0))
ipv6_blocked env env' w pkt pkt' addr addr' h h' o e c d o' same c' = (
  handle-route6 env w pkt addr h o ∙ route6_start env w pkt addr h e c d,
  handle-route6 env' _ pkt' addr' h' o'
      ∙ route6_blocked env' _ pkt' addr' h' 0
          (ap (FlowPolicy.get (set_policy env w (key6_of h) intercept 0).policies) same
            ∙ get-set_policy env w (key6_of h) intercept 0)
          c',
)
