-- ===== src/Engine/Intercept/Routes.antt =====
-- windivert.go, `handleIPv4TCP`: where a packet of a flow goes.
use go_pass.Base.{
  ℕ, ◌+◌, ◌≤◌, ◌<◌, ◌≡◌, ◌≢◌, refl, ◌∙◌, true, false, Option, none, some, inl, inr, arith,
  Bool-cases, if◌then◌else◌, length, Bytes, Text,
}
use go_pass.Engine.Addr.{is_private_or_local4}
use go_pass.Engine.FlowPolicy
use go_pass.Engine.FlowPolicy.{
  PolicyKind, pass, intercept, undecided, FlowKey, is_connection_start, is_intercept,
}
use go_pass.Engine.Batch.{WinDivertAddress, SendQueue, push, recv_buf_size}
use go_pass.Engine.Intercept.{Env, World, decide_new_flow, named, is_proxy, send_pass}
use go_pass.Engine.Intercept.Emit.{send_pass_queued}
use go_pass.Engine.Intercept.Flags.{
  fin_or_rst, is_closing-fin_or_rst, GoesOn, KeepsDirect, drops_policy-direct, get-delete_same,
  get-delete_other,
}
use go_pass.Engine.Intercept.Tcp4.{
  TcpHeader, read_tcp4, is_closing, drops_policy, key_of, set_policy, flow_of, settled_tcp4,
  new_tcp4, route_tcp4, dispatch_tcp4, handle_ipv4_tcp,
}

-- A whole IPv4 TCP packet from a program to a public address that is not the upstream proxy's.
pub record IsOutbound (w : World) (pkt : Bytes) (ihl : ℕ) (h : TcpHeader) : Type 0 where
  pub whole : ihl + 20 ≤ length pkt
  pub header : read_tcp4 pkt ihl ≡ some h
  pub not_reply : h.src_port ≢ w.tproxy_port
  pub not_upstream : is_proxy w h.dst ≡ false
  pub public : is_private_or_local4 h.dst.b0 h.dst.b1 h.dst.b2 h.dst.b3 ≡ false

module _ (env : Env) (w : World) (pkt : Bytes) (addr : WinDivertAddress) (ihl : ℕ) (h : TcpHeader)
    (o : IsOutbound w pkt ihl h) where
  pub handle-route : handle_ipv4_tcp env w pkt addr ihl ≡ route_tcp4 env w pkt addr ihl h
  unfolding handle_ipv4_tcp dispatch_tcp4
  handle-route = ground (arith, o.header, o.not_upstream, o.public)

-- What `route_tcp4` does with the policy that it finds.
module _ (env : Env) (w : World) (pkt : Bytes) (addr : WinDivertAddress) (ihl : ℕ)
    (h : TcpHeader) where
  pub route_settled :
      (kind : PolicyKind) (mapped : ℕ)
      → FlowPolicy.get w.policies (key_of h) ≡ some (kind, mapped)
      → drops_policy kind h.flags ≡ false
      → route_tcp4 env w pkt addr ihl h ≡ settled_tcp4 env w pkt addr ihl h kind mapped
  unfolding route_tcp4
  route_settled kind mapped e d = ground arith

  pub route_dropped :
      (kind : PolicyKind) (mapped : ℕ)
      → FlowPolicy.get w.policies (key_of h) ≡ some (kind, mapped)
      → drops_policy kind h.flags ≡ true
      → route_tcp4 env w pkt addr ihl h
        ≡ new_tcp4 env
            (record w { policies = FlowPolicy.delete w.policies (key_of h) })
            pkt
            addr
            ihl
            h
  unfolding route_tcp4
  route_dropped kind mapped e d = ground arith

  pub route_new :
      FlowPolicy.get w.policies (key_of h) ≡ none
      → route_tcp4 env w pkt addr ihl h ≡ new_tcp4 env w pkt addr ihl h
  unfolding route_tcp4
  route_new e = ground arith

  pub new_closing :
      is_closing h.flags ≡ true → new_tcp4 env w pkt addr ihl h ≡ send_pass env w pkt addr
  unfolding new_tcp4
  new_closing c = ground arith

  pub new_passed :
      (kind : PolicyKind)
      → is_closing h.flags ≡ false
      → decide_new_flow env w (is_connection_start h.flags) (named (env.lookup_tcp (flow_of h)))
        ≡ kind
      → kind ≢ intercept
      → new_tcp4 env w pkt addr ihl h ≡ send_pass env (set_policy env w (key_of h) kind 0) pkt addr
  unfolding new_tcp4
  new_passed kind c d direct = ground arith

decide_midstream :
    (env : Env) (w : World) (found : Option Text) → decide_new_flow env w false found ≡ pass
unfolding decide_new_flow
decide_midstream env w found = refl

pub drops_closing :
    (kind : PolicyKind) (flags : ℕ) → is_closing flags ≡ true → drops_policy kind flags ≡ true
unfolding drops_policy
drops_closing kind flags c = ground arith

-- With room in the queue, the packet goes there as it came.
abbrev pub passes : World → SendQueue → Bytes → WinDivertAddress → World
passes w q pkt addr = record w { queue = some (push q pkt addr) }

module _ (env : Env) (w : World) (q : SendQueue) (pkt : Bytes) (addr : WinDivertAddress) (ihl : ℕ)
    (h : TcpHeader) (o : IsOutbound w pkt ihl h) (queued : w.queue ≡ some q)
    (room : length q.buf + length pkt ≤ recv_buf_size) where
  pub direct_step :
      (kind : PolicyKind) (mapped : ℕ)
      → FlowPolicy.get w.policies (key_of h) ≡ some (kind, mapped)
      → GoesOn h.flags
      → KeepsDirect kind h.flags
      → handle_ipv4_tcp env w pkt addr ihl ≡ some (passes w q pkt addr)
  direct_step kind mapped e g k =
      handle-route env w pkt addr ihl h o
      ∙ route_settled env w pkt addr ihl h kind mapped e (drops_policy-direct kind h.flags g k)
      ∙ settled_direct kind k
      ∙ send_pass_queued env w q pkt addr queued room
    where
      settled_direct :
          (a : PolicyKind)
          → KeepsDirect a h.flags
          → settled_tcp4 env w pkt addr ihl h a mapped ≡ send_pass env w pkt addr
      settled_direct a (inl same) = unfold settled_tcp4 in ground arith
      settled_direct a (inr (same, _)) = unfold settled_tcp4 in ground arith

  -- A whole packet to a public address that is not the upstream proxy's, not a reply of the TProxy, that
  -- does not start a connection, of a flow without a policy, where the queue has room for it: the packet
  -- is queued unchanged; unless it closes the flow, the flow is fixed as direct, and nothing else changes.
  pub midstream_direct :
      FlowPolicy.get w.policies (key_of h) ≡ none
      → is_connection_start h.flags ≡ false
      → handle_ipv4_tcp env w pkt addr ihl
        ≡ some (
            if is_closing h.flags
            then passes w q pkt addr
            else passes (set_policy env w (key_of h) pass 0) q pkt addr)
  midstream_direct e late = elim (Bool-cases (is_closing h.flags)) [
    | inl c ↦
        handle-route env w pkt addr ihl h o
        ∙ route_new env w pkt addr ihl h e
        ∙ new_closing env w pkt addr ihl h c
        ∙ send_pass_queued env w q pkt addr queued room
        ∙ rw c
    | inr c ↦
        handle-route env w pkt addr ihl h o
        ∙ route_new env w pkt addr ihl h e
        ∙ new_passed env w pkt addr ihl h pass c (rw late (decide_midstream env w _)) (λ x. cc)
        ∙ send_pass_queued env (set_policy env w (key_of h) pass 0) q pkt addr queued room
        ∙ rw c
  ]

  -- With room in the queue: a packet of a flow without a policy that does not close it, and on which
  -- the decision is not to intercept, is queued unchanged; the decision is recorded, with port 0, and
  -- nothing else changes.
  pub start_direct :
      FlowPolicy.get w.policies (key_of h) ≡ none
      → is_closing h.flags ≡ false
      → decide_new_flow env w (is_connection_start h.flags) (named (env.lookup_tcp (flow_of h)))
        ≢ intercept
      → handle_ipv4_tcp env w pkt addr ihl
        ≡ some (
            passes
              (set_policy env w
                (key_of h)
                (decide_new_flow env w
                  (is_connection_start h.flags)
                  (named (env.lookup_tcp (flow_of h))))
                0)
              q
              pkt
              addr)
  start_direct e c direct =
      handle-route env w pkt addr ihl h o
      ∙ route_new env w pkt addr ihl h e
      ∙ new_passed env w pkt addr ihl h _ c refl direct
      ∙ send_pass_queued env (set_policy env w (key_of h) _ 0) q pkt addr queued room

  -- A whole packet with FIN or RST, to a public address that is not the upstream proxy's and not a reply
  -- of the TProxy, of an intercepted flow, where the queue has room for it: it is queued unchanged, for
  -- its original destination and not for the TProxy; the flow has no policy any more, other flows keep
  -- theirs, and the tracker stays as it is.
  pub closing_bypasses_tproxy :
      (mapped : ℕ)
      → FlowPolicy.get w.policies (key_of h) ≡ some (intercept, mapped)
      → h.flags < 256
      → fin_or_rst h.flags ≡ true
      → (w' : World) × (handle_ipv4_tcp env w pkt addr ihl ≡ some w')
        × (w'.queue ≡ some (push q pkt addr))
        × (FlowPolicy.get w'.policies (key_of h) ≡ none)
        × ((k : FlowKey)
            → key_of h ≢ k
            → FlowPolicy.get w'.policies k ≡ FlowPolicy.get w.policies k)
        × (w'.tracker ≡ w.tracker)
  closing_bypasses_tproxy mapped e byte ended =
      let w' = record w { policies = FlowPolicy.delete w.policies (key_of h) } in
      let c = is_closing-fin_or_rst h.flags byte ∙ ended in
      (
        passes w' q pkt addr,
        handle-route env w pkt addr ihl h o
            ∙ route_dropped env w pkt addr ihl h intercept mapped e
                (drops_closing intercept h.flags c)
            ∙ new_closing env w' pkt addr ihl h c
            ∙ send_pass_queued env w' q pkt addr queued room,
        refl,
        get-delete_same w.policies (key_of h),
        λ k ne. get-delete_other w.policies (key_of h) k ne,
        refl,
      )
