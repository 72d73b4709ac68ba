-- ===== src/Engine/Intercept/Failures.antt =====
-- windivert.go, `hijackTCP`: a hijack that fails.
use go_pass.Base.{ℕ, ◌+◌, ◌≤◌, ◌≡◌, ◌∙◌, refl, false, none, some, arith, length, Bytes, ◌>>=◌}
use go_pass.Engine.Addr.{loopback_text}
use go_pass.Engine.ConnTrack
use go_pass.Engine.ConnTrack.{ConnTracker, ConnKey, set_target, mapped_of, entry_of, orig_key}
use go_pass.Engine.ConnTrack.Invariant.{Inv}
use go_pass.Engine.ConnTrack.Alloc.{IsFree}
use go_pass.Engine.ConnTrack.Given.{set_target-Given, set_target-undone}
use go_pass.Engine.FlowPolicy
use go_pass.Engine.FlowPolicy.{PolicyKind, pass, intercept, is_connection_start}
use go_pass.Engine.Batch.{WinDivertAddress, SendQueue, recv_buf_size}
use go_pass.Engine.Intercept.{Env, World, send_pass, calc_and_send}
use go_pass.Engine.Intercept.Emit.{send_pass_queued}
use go_pass.Engine.Intercept.Hijack.{rewrite_hijack, target_of, hijack_registered, hijack_tcp}
use go_pass.Engine.Intercept.Hijacks.{IsOpen, IsWhitelisted, decided, new_hijacked, route_open}
use go_pass.Engine.Intercept.Flags.{Starts, GoesOn-closing, get-set_same}
use go_pass.Engine.Intercept.Routes.{IsOutbound, handle-route, route_new, passes}
use go_pass.Engine.Intercept.Tcp4.{
  TcpHeader, is_closing, key_of, set_policy, decide_tcp4, hijack_flow, handle_ipv4_tcp,
}
use go_pass.Engine.Intercept.Total.{rewrite_hijack-lt}

module _ (env : Env) (w : World) (pkt : Bytes) (addr : WinDivertAddress) (ihl : ℕ)
    (h : TcpHeader) where
  hijack_flow_exhausted :
      (t' : ConnTracker) (w' : World)
      → set_target w.tracker (target_of env addr h.src h.dst h.src_port h.dst_port) ≡ (t', none)
      → send_pass env (record w { tracker = t' }) pkt addr ≡ some w'
      → hijack_flow env w pkt addr ihl h ≡ some (set_policy env w' (key_of h) pass 0)
  unfolding hijack_flow hijack_tcp
  hijack_flow_exhausted t' w' full passed = ground arith

  hijack_flow_unsummed :
      (t' : ConnTracker) (port : ℕ) (r : Bytes × WinDivertAddress)
      → set_target w.tracker (target_of env addr h.src h.dst h.src_port h.dst_port)
        ≡ (t', some port)
      → rewrite_hijack pkt addr ihl port w.tproxy_port ≡ some r
      → env.calc_checksums r.0 r.1 ≡ none
      → hijack_flow env w pkt addr ihl h
        ≡ some (
            set_policy env
              (record w { tracker = ConnTrack.delete t' loopback_text port })
              (key_of h)
              pass
              0)
  unfolding hijack_flow hijack_tcp hijack_registered calc_and_send
  hijack_flow_unsummed t' port r registered f failed = ground arith

module _ (env : Env) (w : World) (q : SendQueue) (pkt : Bytes) (addr : WinDivertAddress) (ihl : ℕ)
    (h : TcpHeader) (o : IsOutbound w pkt ihl h) (queued : w.queue ≡ some q) where
  -- A whitelisted flow that starts with every mapped port in use: with room in the queue its packet is
  -- queued unchanged, exactly once, and the flow is fixed as direct.
  pub exhausted_direct :
      (t' : ConnTracker)
      → length q.buf + length pkt ≤ recv_buf_size
      → FlowPolicy.get w.policies (key_of h) ≡ none
      → is_closing h.flags ≡ false
      → decide_tcp4 env w h ≡ intercept
      → set_target w.tracker (target_of env addr h.src h.dst h.src_port h.dst_port) ≡ (t', none)
      → handle_ipv4_tcp env w pkt addr ihl
        ≡ some (set_policy env (passes (record w { tracker = t' }) q pkt addr) (key_of h) pass 0)
  exhausted_direct t' room e c d full =
      handle-route env w pkt addr ihl h o
      ∙ route_new env w pkt addr ihl h e
      ∙ new_hijacked env w pkt addr ihl h c d
      ∙ hijack_flow_exhausted env w pkt addr ihl h t' _ full
          (send_pass_queued env (record w { tracker = t' }) q pkt addr queued room)

  -- A whole packet with SYN and without ACK, FIN and RST, of a whitelisted program, to a public address
  -- that is not the upstream proxy's and not a reply of the TProxy, of a flow without a policy or one
  -- whose program was not found so far, and of a connection that the tracker does not know; the tracker
  -- is valid and has a free port. Where no rewritten packet gets its checksums, nothing is queued and
  -- nothing sent, neither the packet nor the rewritten one, every entry of the tracker is as before, the
  -- port given included, and the flow is fixed as direct.
  pub unsummed_dropped :
      (free : ℕ)
      → 20 ≤ ihl
      → IsOpen w h
      → Starts h.flags
      → IsWhitelisted env w h
      → Inv w.tracker
      → IsFree w.tracker free
      → mapped_of (orig_key h.src h.src_port h.dst h.dst_port) w.tracker ≡ none
      → ((port : ℕ)
          → (rewrite_hijack pkt addr ihl port w.tproxy_port >>= λ r. env.calc_checksums r.0 r.1)
            ≡ none)
      → (w' : World) × (handle_ipv4_tcp env w pkt addr ihl ≡ some w')
        × (w'.queue ≡ w.queue)
        × (w'.wire ≡ w.wire)
        × ((k : ConnKey) → entry_of k w'.tracker ≡ entry_of k w.tracker)
        × (FlowPolicy.get w'.policies (key_of h) ≡ some (pass, 0))
  unsummed_dropped free header unsettled s listed i has_free fresh fails =
      let target = target_of env addr h.src h.dst h.src_port h.dst_port in
      let g = set_target-Given w.tracker target i free has_free in
      let (p, routed) = route_open env w pkt addr ihl h unsettled s in
      let (r, f, _) =
        rewrite_hijack-lt pkt addr ihl g.port w.tproxy_port header (omega (arith, o.whole)) in
      (
        set_policy env
            (record w { policies = p; tracker = ConnTrack.delete g.tracker loopback_text g.port })
            (key_of h) pass 0,
        handle-route env w pkt addr ihl h o
            ∙ routed
            ∙ new_hijacked env (record w { policies = p }) pkt addr ihl h
                (GoesOn-closing h.flags s.goes_on) (decided env w p h s listed)
            ∙ hijack_flow_unsummed env (record w { policies = p }) pkt addr ihl h g.tracker g.port r
                g.is_set f (rw f at (fails g.port)),
        refl,
        refl,
        λ k. set_target-undone w.tracker target i g.tracker g.port k fresh g.is_set,
        get-set_same p (key_of h) env.now 0 pass,
      )
