-- ===== src/Engine/Intercept/Hijacks.antt =====
-- windivert.go: what hijacking a packet does to the tracker, the policies and the queue.
use go_pass.Base.{
  ℕ, ◌+◌, ◌≤◌, ◌<◌, ◌≡◌, ◌≢◌, ◌⊎◌, ◌∙◌, refl, ap, Bool, true, false, [], ◌∷◌, Option, none, some,
  inl, inr, arith, Bytes, Text, Text-discrete, lookup, length,
}
use go_pass.Engine.Addr.{loopback_text, loopback_v4}
use go_pass.Engine.ConnTrack
use go_pass.Engine.ConnTrack.{
  ConnTracker, ConnTarget, set_target, has_mapped, mapped_of, target_key, orig_key, entry_of,
  ConnKey,
}
use go_pass.Engine.ConnTrack.Invariant.{Inv}
use go_pass.Engine.ConnTrack.Alloc.{IsFree}
use go_pass.Engine.ConnTrack.Flows.{has_mapped_pos}
use go_pass.Engine.ConnTrack.Given.{Given, set_target-Given}
use go_pass.Engine.FlowPolicy
use go_pass.Engine.FlowPolicy.{
  FlowPolicies, PolicyKind, pass, intercept, undecided, is_connection_start,
}
use go_pass.Engine.Batch.{WinDivertAddress, SendQueue, push}
use go_pass.Engine.Intercept.{Env, World, decide_new_flow, is_whitelisted, named, calc_and_send}
use go_pass.Engine.Intercept.Flags.{GoesOn, Starts, GoesOn-closing, Starts-start, get-set_same}
use go_pass.Engine.Intercept.Hijack.{
  rewrite_hijack, target_of, hijack_registered, hijack_tcp, hijack_with_port,
}
use go_pass.Engine.Intercept.Rewritten.{rewrite_hijack-Reads}
use go_pass.Engine.Intercept.Routes.{
  IsOutbound, handle-route, route_settled, route_dropped, route_new, passes,
}
use go_pass.Engine.Intercept.Tcp4.{
  TcpHeader, read_tcp4, is_closing, drops_policy, key_of, set_policy, flow_of, hijack_flow,
  settled_tcp4, new_tcp4, route_tcp4, handle_ipv4_tcp,
}

-- `calcAndSend` into a queue.
calc_and_send_queued :
    (env : Env) (w : World) (q : SendQueue) (pkt pkt' : Bytes) (addr addr' : WinDivertAddress)
    → w.queue ≡ some q
    → w.handle ≡ true
    → env.calc_checksums pkt addr ≡ some (pkt', addr')
    → calc_and_send env w pkt addr ≡ (record w { queue = some (push q pkt' addr') }, true)
unfolding calc_and_send
calc_and_send_queued env w q pkt pkt' addr addr' e h c = ground arith

settled_hijacked :
    (env : Env) (w : World) (pkt : Bytes) (addr : WinDivertAddress) (ihl : ℕ) (h : TcpHeader)
    (m : ℕ) (r : Bytes × WinDivertAddress)
    → has_mapped w.tracker m ≡ true
    → rewrite_hijack pkt addr ihl m w.tproxy_port ≡ some r
    → settled_tcp4 env w pkt addr ihl h intercept m ≡ some (calc_and_send env w r.0 r.1).0
unfolding settled_tcp4 hijack_with_port
settled_hijacked env w pkt addr ihl h m r live f = ground (arith, has_mapped_pos w.tracker m live)

pub new_hijacked :
    (env : Env) (w : World) (pkt : Bytes) (addr : WinDivertAddress) (ihl : ℕ) (h : TcpHeader)
    → is_closing h.flags ≡ false
    → decide_new_flow env w (is_connection_start h.flags) (named (env.lookup_tcp (flow_of h)))
      ≡ intercept
    → new_tcp4 env w pkt addr ihl h ≡ hijack_flow env w pkt addr ihl h
unfolding new_tcp4
new_hijacked env w pkt addr ihl h c d = ground arith

has_mapped-get :
    (t : ConnTracker) (port : ℕ) (v : ConnTarget)
    → 0 < port
    → ConnTrack.get t loopback_text port ≡ some v
    → has_mapped t port ≡ true
unfolding has_mapped ConnTrack.get
has_mapped-get t port v pos e = ground arith

drops_policy-intercept :
    (flags : ℕ) → is_closing flags ≡ false → drops_policy intercept flags ≡ false
unfolding drops_policy
drops_policy-intercept flags e = ground arith

drops_undecided :
    (flags : ℕ) → is_connection_start flags ≡ true → drops_policy undecided flags ≡ true
unfolding drops_policy
drops_undecided flags e = ground arith

-- The whitelisted program whose connection the packet belongs to.
pub record IsWhitelisted (env : Env) (w : World) (h : TcpHeader) : Type 0 where
  pub name : Text
  pub found : env.lookup_tcp (flow_of h) ≡ some name
  pub is_named : name ≢ []
  pub listed : lookup Text-discrete (env.to_lower name) w.whitelist ≡ some tt

-- The flow has no policy yet, or its program was not found so far.
abbrev pub IsOpen : World → TcpHeader → Type 0
IsOpen w h =
    (FlowPolicy.get w.policies (key_of h) ≡ none)
    ⊎ ((m : ℕ) × (FlowPolicy.get w.policies (key_of h) ≡ some (undecided, m)))

-- The driver's library computes the checksums of the rewritten packet, and keeps the addresses, the
-- ports and the flags.
abbrev pub Sums : Env → World → Bytes → WinDivertAddress → ℕ → Type 0
Sums env w pkt addr ihl =
    (port : ℕ) (out : Bytes) (a : WinDivertAddress)
    → rewrite_hijack pkt addr ihl port w.tproxy_port ≡ some (out, a)
    → (summed : Bytes) × (a' : WinDivertAddress) × (env.calc_checksums out a ≡ some (summed, a'))
      × (read_tcp4 summed ihl ≡ read_tcp4 out ihl)

-- What goes to the queue: a packet on the loopback from the mapped port to the TProxy, with the flags.
pub record Diverted (w' : World) (q : SendQueue) (ihl : ℕ) (h : TcpHeader) (tproxy port : ℕ)
    : Type 0 where
  pub out : Bytes
  pub out_addr : WinDivertAddress
  pub queue_is : w'.queue ≡ some (push q out out_addr)
  pub reads :
      read_tcp4 out ihl
      ≡ some (record {
        src_port = port;
        dst_port = tproxy;
        flags = h.flags;
        src = record { b0 = 127; b1 = 0; b2 = 0; b3 = 1 };
        dst = record { b0 = 127; b1 = 0; b2 = 0; b3 = 1 };
      })

named-some : (o : Option Text) (name : Text) → o ≡ some name → name ≢ [] → named o ≡ some name
named-some o [] e ne = absurd (ne refl)
named-some o (c ∷ cs) e ne = rw e refl

pub decided :
    (env : Env) (w : World) (p : FlowPolicies) (h : TcpHeader)
    → Starts h.flags
    → IsWhitelisted env w h
    → decide_new_flow env
        (record w { policies = p })
        (is_connection_start h.flags)
        (named (env.lookup_tcp (flow_of h)))
      ≡ intercept
unfolding decide_new_flow is_whitelisted
decided env w p h s l =
    ground (arith, named-some _ l.name l.found l.is_named, Starts-start h.flags s, l.listed)

-- A flow that is open is handled as one without a policy.
pub route_open :
    (env : Env) (w : World) (pkt : Bytes) (addr : WinDivertAddress) (ihl : ℕ) (h : TcpHeader)
    → IsOpen w h
    → Starts h.flags
    → (p : FlowPolicies) × (route_tcp4 env w pkt addr ihl h
        ≡ new_tcp4 env (record w { policies = p }) pkt addr ihl h)
route_open env w pkt addr ihl h (inl e) s = (w.policies, route_new env w pkt addr ihl h e)
route_open env w pkt addr ihl h (inr (m, e)) s = (
  FlowPolicy.delete w.policies (key_of h),
  route_dropped env w pkt addr ihl h undecided m e
      (drops_undecided h.flags (Starts-start h.flags s)),
)

module _ (env : Env) (w : World) (q : SendQueue) (pkt : Bytes) (addr : WinDivertAddress) (ihl : ℕ)
    (h : TcpHeader) (queued : w.queue ≡ some q) (whole : ihl + 20 ≤ length pkt) (header : 20 ≤ ihl)
    (read : read_tcp4 pkt ihl ≡ some h) (ready : w.handle ≡ true) (fits : w.tproxy_port < 65536)
    (sums : Sums env w pkt addr ihl) where
  -- The rewritten packet, with its checksums, in the queue.
  rewritten :
      (port : ℕ)
      → port < 65536
      → (r : Bytes × WinDivertAddress) × (rewrite_hijack pkt addr ihl port w.tproxy_port ≡ some r)
        × (t : Bytes × WinDivertAddress) × (env.calc_checksums r.0 r.1 ≡ some t)
        × Diverted (passes w q t.0 t.1) q ihl h w.tproxy_port port
  rewritten port small =
      let r = rewrite_hijack-Reads pkt addr ihl header whole h read port w.tproxy_port small fits in
      let (summed, a', e, same) = sums port r.out _ r.result in
      (
        (r.out, _),
        r.result,
        (summed, a'),
        e,
        record {
          out = summed;
          out_addr = a';
          queue_is = refl;
          reads = unfold loopback_v4 in same ∙ r.reads;
        },
      )

  hijack_flow_done :
      (p : FlowPolicies)
      → (g : Given w.tracker (target_of env addr h.src h.dst h.src_port h.dst_port))
      → (w' : World) × (hijack_flow env (record w { policies = p }) pkt addr ihl h ≡ some w')
        × Diverted w' q ihl h w.tproxy_port g.port
        × (FlowPolicy.get w'.policies (key_of h) ≡ some (intercept, g.port))
        × (w'.tracker ≡ g.tracker)
  hijack_flow_done p g =
      let (r, f, t, summed, hijacked) = rewritten g.port (omega (arith, g.high)) in
      let w₁ = record w { policies = p; tracker = g.tracker } in
      let sent = calc_and_send_queued env w₁ q r.0 t.0 r.1 t.1 queued ready summed in
      (
        set_policy env (passes w₁ q t.0 t.1) (key_of h) intercept g.port,
        done r t f sent,
        record {
          out = hijacked.out;
          out_addr = hijacked.out_addr;
          queue_is = hijacked.queue_is;
          reads = hijacked.reads;
        },
        get-set_same p (key_of h) env.now g.port intercept,
        refl,
      )
    where
      done :
          (r t : Bytes × WinDivertAddress)
          → rewrite_hijack pkt addr ihl g.port w.tproxy_port ≡ some r
          → calc_and_send env (record w { policies = p; tracker = g.tracker }) r.0 r.1
            ≡ (passes (record w { policies = p; tracker = g.tracker }) q t.0 t.1, true)
          → hijack_flow env (record w { policies = p }) pkt addr ihl h
            ≡ some (
                set_policy env
                  (passes (record w { policies = p; tracker = g.tracker }) q t.0 t.1)
                  (key_of h)
                  intercept
                  g.port)
      done r t f sent =
          unfold hijack_flow hijack_tcp hijack_registered in
          ground (arith, g.is_set, g.low, f, sent)

module _ (env : Env) (w : World) (q : SendQueue) (pkt : Bytes) (addr : WinDivertAddress) (ihl : ℕ)
    (h : TcpHeader) (o : IsOutbound w pkt ihl h) (queued : w.queue ≡ some q) (header : 20 ≤ ihl)
    (ready : w.handle ≡ true) (fits : w.tproxy_port < 65536) (sums : Sums env w pkt addr ihl) where
  -- A whole packet without FIN and RST, to a public address that is not the upstream proxy's and not a
  -- reply of the TProxy, of an intercepted flow whose port the tracker still has: what is queued in its
  -- place reads as a packet on 127.0.0.1 from that port to the TProxy's, with the same flags, whatever
  -- the process lookup and the whitelist say now; the policies and the tracker stay as they are. The
  -- driver handle is there, and its library sums the rewritten packet.
  pub hijacked_stays :
      (mapped : ℕ) (target : ConnTarget)
      → FlowPolicy.get w.policies (key_of h) ≡ some (intercept, mapped)
      → ConnTrack.get w.tracker loopback_text mapped ≡ some target
      → 0 < mapped
      → mapped < 65536
      → GoesOn h.flags
      → (w' : World) × (handle_ipv4_tcp env w pkt addr ihl ≡ some w')
        × Diverted w' q ihl h w.tproxy_port mapped
        × (w'.policies ≡ w.policies)
        × (w'.tracker ≡ w.tracker)
  hijacked_stays mapped target e live pos small g =
      let (r, f, t, summed, hijacked) =
        rewritten env w q pkt addr ihl h queued o.whole header o.header ready fits sums mapped
          small in
      (
        passes w q t.0 t.1,
        handle-route env w pkt addr ihl h o
            ∙ route_settled env w pkt addr ihl h intercept mapped e
                (drops_policy-intercept h.flags (GoesOn-closing h.flags g))
            ∙ settled_hijacked env w pkt addr ihl h mapped r
                (has_mapped-get w.tracker mapped target pos live) f
            ∙ ap (λ (s : World × Bool). some s.0)
                (calc_and_send_queued env w q r.0 t.0 r.1 t.1 queued ready summed),
        hijacked,
        refl,
        refl,
      )

  -- A whole packet with SYN and without ACK, FIN and RST, of a whitelisted program, to a public address
  -- that is not the upstream proxy's and not a reply of the TProxy, of a flow without a policy or one
  -- whose program was not found so far. Where the tracker is valid and has a free port, a port of the
  -- pool is given: the tracker's entry for it has the addresses and ports of the flow, the flow's policy
  -- records it, and what is queued in place of the packet reads as one on 127.0.0.1 from that port to the
  -- TProxy's, with the same flags. The driver handle is there, and its library sums the rewritten packet.
  pub start_hijacked :
      (free : ℕ)
      → IsOpen w h
      → Starts h.flags
      → IsWhitelisted env w h
      → Inv w.tracker
      → IsFree w.tracker free
      → (w' : World) × (port : ℕ) × (entry : ConnTarget) × (handle_ipv4_tcp env w pkt addr ihl
          ≡ some w')
        × Diverted w' q ihl h w.tproxy_port port
        × (FlowPolicy.get w'.policies (key_of h) ≡ some (intercept, port))
        × (ConnTrack.get w'.tracker loopback_text port ≡ some entry)
        × (target_key entry ≡ orig_key h.src h.src_port h.dst h.dst_port)
  start_hijacked free unsettled s listed i has_free =
      let g = set_target-Given w.tracker _ i free has_free in
      let (p, routed) = route_open env w pkt addr ihl h unsettled s in
      let (w', done, hijacked, policy, tracker) =
        hijack_flow_done env w q pkt addr ihl h queued o.whole header o.header ready fits sums p
          g in
      (
        w',
        g.port,
        g.entry,
        handle-route env w pkt addr ihl h o
            ∙ routed
            ∙ new_hijacked env (record w { policies = p }) pkt addr ihl h
                (GoesOn-closing h.flags s.goes_on) (decided env w p h s listed)
            ∙ done,
        hijacked,
        policy,
        rw tracker g.held,
        g.same_flow,
      )
