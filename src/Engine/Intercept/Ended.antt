-- ===== src/Engine/Intercept/Ended.antt =====
-- windivert.go: the IPv4 TCP handler on every packet.
use go_pass.Base.{
  ℕ, ◌+◌, ◌≤◌, ◌≡◌, not, ◌&&◌, Option, none, some, inl, inr, arith, Bool-cases, Option-cases,
  length, Bytes, ltb, ◌==◌, be16-lt,
}
use go_pass.Engine.Addr.{Ipv4, is_private_or_local4, loopback_text}
use go_pass.Engine.ConnTrack
use go_pass.Engine.ConnTrack.{ConnTracker, set_target, has_mapped}
use go_pass.Engine.FlowPolicy
use go_pass.Engine.FlowPolicy.{PolicyKind, is_intercept}
use go_pass.Engine.Batch.{WinDivertAddress}
use go_pass.Engine.Intercept.{Env, World, is_proxy, calc_and_send}
use go_pass.Engine.Intercept.Emit.{QueueOk, Ends, ends}
use go_pass.Engine.Intercept.Safe.{Ends-if, send_pass-Ends, calc_and_send_ok}
use go_pass.Engine.Intercept.Routes.{route_settled, route_dropped, route_new}
use go_pass.Engine.Intercept.Total.{rewrite_hijack-lt, rewrite_reply-lt, read_tcp4-lt, read_ip4-lt}
use go_pass.Engine.Intercept.Hijack.{
  target_of, hijack_registered, hijack_tcp, hijack_with_port, reply_to, reverse_nat,
}
use go_pass.Engine.Intercept.Tcp4.{
  TcpHeader, key_of, drops_policy, is_closing, hijack_flow, settled_tcp4, new_tcp4, route_tcp4,
  dispatch_tcp4, handle_ipv4_tcp, set_policy, decide_tcp4,
}

-- The same for a step with a result beside the state.
record EndsWith (r : Option (World × ℕ)) : Type 0 where
  pair : World × ℕ
  result : r ≡ some pair
  whole : QueueOk (pair.0).queue

module _ (env : Env) (pkt : Bytes) (addr : WinDivertAddress) (ihl : ℕ) (long : 20 ≤ ihl)
    (room : ihl + 4 ≤ length pkt) where
  pub hijack_with_port-Ends :
      (w : World) (mapped tproxy : ℕ)
      → QueueOk w.queue
      → Ends (hijack_with_port env w pkt addr mapped tproxy ihl)
  unfolding hijack_with_port
  hijack_with_port-Ends w mapped tproxy h =
      let (r, e, _) = rewrite_hijack-lt pkt addr ihl mapped tproxy long room in
      rw e (ends _ (calc_and_send_ok env w r.0 r.1 h))

  hijack_registered-EndsWith :
      (w : World) (mapped : ℕ)
      → QueueOk w.queue
      → EndsWith (hijack_registered env w pkt addr ihl mapped)
  unfolding hijack_registered
  hijack_registered-EndsWith w mapped h =
      let (r, e, _) = rewrite_hijack-lt pkt addr ihl mapped w.tproxy_port long room in
      let sent = calc_and_send env w r.0 r.1 in
      let ok = calc_and_send_ok env w r.0 r.1 h in
      elim (Bool-cases sent.1) [
        | inl done ↦ record { pair = (sent.0, mapped); result = rw e (rw done); whole = ok }
        | inr failed ↦ record {
          pair = (
            record (sent.0) { tracker = ConnTrack.delete (sent.0).tracker loopback_text mapped },
            0,
          );
          result = rw e (rw failed);
          whole = ok;
        }
      ]

  hijack_tcp-EndsWith :
      (w : World) (src dst : Ipv4) (src_port dst_port : ℕ)
      → QueueOk w.queue
      → EndsWith (hijack_tcp env w pkt addr src dst src_port dst_port ihl)
  unfolding hijack_tcp
  hijack_tcp-EndsWith w src dst src_port dst_port h =
      let registered = set_target w.tracker (target_of env addr src dst src_port dst_port) in
      let w' : World = record w { tracker = registered.0 } in
      elim (Option-cases (registered.1)) [
        | inl full ↦
            let passed = send_pass-Ends env w' pkt addr h in
            record {
              pair = (passed.world, 0);
              result = ground (arith, passed.result);
              whole = passed.whole;
            }
        | inr (mapped, e) ↦
            let done = hijack_registered-EndsWith w' mapped h in
            record { pair = done.pair; result = ground (arith, done.result); whole = done.whole }
      ]

  hijack_flow-Ends :
      (w : World) (h : TcpHeader) → QueueOk w.queue → Ends (hijack_flow env w pkt addr ihl h)
  unfolding hijack_flow
  hijack_flow-Ends w h ok =
      let done = hijack_tcp-EndsWith w h.src h.dst h.src_port h.dst_port ok in
      rw (done.result) (elim (Bool-cases (done.pair.1 == 0)) [
        | inl e ↦ rw e (ends _ done.whole)
        | inr e ↦ rw e (ends _ done.whole)
      ])

  settled_tcp4-Ends :
      (w : World) (h : TcpHeader) (kind : PolicyKind) (mapped : ℕ)
      → QueueOk w.queue
      → Ends (settled_tcp4 env w pkt addr ihl h kind mapped)
  unfolding settled_tcp4
  settled_tcp4-Ends w h kind mapped ok =
      Ends-if (is_intercept kind) _ _
        (Ends-if (not (mapped == 0) && has_mapped w.tracker mapped) _ _
          (hijack_with_port-Ends w mapped w.tproxy_port ok) (hijack_flow-Ends w h ok))
        (send_pass-Ends env w pkt addr ok)

  new_tcp4-Ends :
      (w : World) (h : TcpHeader) → QueueOk w.queue → Ends (new_tcp4 env w pkt addr ihl h)
  unfolding new_tcp4
  new_tcp4-Ends w h ok = Ends-if (is_closing h.flags) _ _ (send_pass-Ends env w pkt addr ok) (
      Ends-if (is_intercept (decide_tcp4 env w h)) _ _ (hijack_flow-Ends w h ok)
        (send_pass-Ends env (set_policy env w (key_of h) (decide_tcp4 env w h) 0) pkt addr ok))

  route_tcp4-Ends :
      (w : World) (h : TcpHeader) → QueueOk w.queue → Ends (route_tcp4 env w pkt addr ihl h)
  route_tcp4-Ends w h ok = elim (Option-cases (FlowPolicy.get w.policies (key_of h))) [
    | inl e ↦ rw (route_new env w pkt addr ihl h e) (new_tcp4-Ends w h ok)
    | inr ((kind, mapped), e) ↦ elim (Bool-cases (drops_policy kind h.flags)) [
      | inl d ↦
          rw (route_dropped env w pkt addr ihl h kind mapped e d)
            (new_tcp4-Ends (record w { policies = FlowPolicy.delete w.policies (key_of h) }) h ok)
      | inr d ↦
          rw (route_settled env w pkt addr ihl h kind mapped e d)
            (settled_tcp4-Ends w h kind mapped ok)
    ]
  ]

  reply_to-Ends :
      (w : World) (found : Option ConnTrack.ConnTarget)
      → QueueOk w.queue
      → Ends (reply_to env w pkt addr ihl found)
  unfolding reply_to
  reply_to-Ends w none ok = send_pass-Ends env w pkt addr ok
  reply_to-Ends w (some target) ok =
      let (r, e, _) = rewrite_reply-lt pkt addr ihl target long room in
      rw e (ends _ (calc_and_send_ok env w r.0 r.1 ok))

  reverse_nat-Ends : (w : World) → QueueOk w.queue → Ends (reverse_nat env w pkt addr ihl)
  unfolding reverse_nat
  reverse_nat-Ends w ok =
      let (d, e1) = read_ip4-lt pkt 16 (omega arith) in
      let (p, e2) = be16-lt pkt (ihl + 2) (omega arith) in rw (e1, e2) (reply_to-Ends w _ ok)

  dispatch_tcp4-Ends :
      (w : World) (h : TcpHeader) → QueueOk w.queue → Ends (dispatch_tcp4 env w pkt addr ihl h)
  unfolding dispatch_tcp4
  dispatch_tcp4-Ends w h ok = Ends-if (h.src_port == w.tproxy_port) _ _ (reverse_nat-Ends w ok) (
      Ends-if (is_proxy w h.dst) _ _ (send_pass-Ends env w pkt addr ok) (
        Ends-if (is_private_or_local4 h.dst.b0 h.dst.b1 h.dst.b2 h.dst.b3) _ _
          (send_pass-Ends env w pkt addr ok) (route_tcp4-Ends w h ok)))

  pub handle_ipv4_tcp-Ends :
      (w : World) → QueueOk w.queue → Ends (handle_ipv4_tcp env w pkt addr ihl)
  unfolding handle_ipv4_tcp
  handle_ipv4_tcp-Ends w ok = elim (Bool-cases (ltb (length pkt) (ihl + 20))) [
    | inl short ↦ rw short (send_pass-Ends env w pkt addr ok)
    | inr whole ↦
        let (h, e) = read_tcp4-lt pkt ihl long (ground arith) in
        rw (whole, e) (dispatch_tcp4-Ends w h ok)
  ]
