-- ===== src/Engine/Intercept/Packets.antt =====
-- windivert.go, `handlePacket` on every buffer.
use go_pass.Base.{
  ℕ, ◌+◌, ◌/◌, ◌≤◌, not, inl, inr, arith, Bool-cases, Option-cases, length, Bytes, ltb, ◌==◌,
  be16-lt, get_elem?-lt,
}
use go_pass.Engine.Addr.{is_private_or_local4, is_private_or_local_v6}
use go_pass.Engine.FlowPolicy
use go_pass.Engine.FlowPolicy.{PolicyKind, intercept, is_intercept}
use go_pass.Engine.Batch.{WinDivertAddress}
use go_pass.Engine.Intercept.{Env, World, UdpFlow, is_proxy, le32}
use go_pass.Engine.Intercept.Emit.{QueueOk, Ends, ends}
use go_pass.Engine.Intercept.Safe.{Ends-if, send_pass-Ends}
use go_pass.Engine.Intercept.Ended.{handle_ipv4_tcp-Ends}
use go_pass.Engine.Intercept.Total.{read_tcp6-lt, read_ip4-lt}
use go_pass.Engine.Intercept.Tcp4.{drops_policy, is_closing, set_policy}
use go_pass.Engine.Intercept.Udp4.{found_whitelisted, route_udp4, handle_ipv4_udp}
use go_pass.Engine.Intercept.Ipv6.{
  Tcp6Header, key6_of, decide_tcp6, new_tcp6, route_tcp6, handle_ipv6_tcp, handle_ipv6_udp,
  handle_ipv6,
}
use go_pass.Engine.Intercept.Dispatch.{
  ihl_of, handle_protocol, handle_ipv4, handle_version, handle_packet,
}

module _ (env : Env) (pkt : Bytes) (addr : WinDivertAddress) where
  handle_ipv4_udp-Ends :
      (w : World) (ihl : ℕ) → 20 ≤ ihl → QueueOk w.queue → Ends (handle_ipv4_udp env w pkt addr ihl)
  unfolding handle_ipv4_udp route_udp4
  handle_ipv4_udp-Ends w ihl long h = elim (Bool-cases (ltb (length pkt) (ihl + 8))) [
    | inl short ↦ rw short (send_pass-Ends env w pkt addr h)
    | inr whole ↦
        let enough : ihl + 8 ≤ length pkt = ground arith in
        let (sp, e1) = be16-lt pkt ihl (omega arith) in
        let (dp, e2) = be16-lt pkt (ihl + 2) (omega arith) in
        let (dst, e3) = read_ip4-lt pkt 16 (omega arith) in
        let (src, e4) = read_ip4-lt pkt 12 (omega arith) in
        let flow : UdpFlow = record { local_ip = le32 src; local_port = sp } in
        let passed = send_pass-Ends env w pkt addr h in
        rw (whole, e1, e2, e3, e4)
          (Ends-if (not (dp == 443)) _ _ passed (
            Ends-if (is_private_or_local4 dst.b0 dst.b1 dst.b2 dst.b3) _ _ passed (
              Ends-if (is_proxy w dst) _ _ passed
                (Ends-if (found_whitelisted env w (env.lookup_udp flow)) _ _ (ends w h) passed))))
  ]

  new_tcp6-Ends : (w : World) (h : Tcp6Header) → QueueOk w.queue → Ends (new_tcp6 env w pkt addr h)
  unfolding new_tcp6
  new_tcp6-Ends w h k = Ends-if (is_closing h.flags) _ _ (send_pass-Ends env w pkt addr k) (
      Ends-if (is_intercept (decide_tcp6 env w h)) _ _
        (ends (set_policy env w (key6_of h) intercept 0) k)
        (send_pass-Ends env (set_policy env w (key6_of h) (decide_tcp6 env w h) 0) pkt addr k))

  route_tcp6-Ends :
      (w : World) (h : Tcp6Header) → QueueOk w.queue → Ends (route_tcp6 env w pkt addr h)
  unfolding route_tcp6
  route_tcp6-Ends w h k = elim (Option-cases (FlowPolicy.get w.policies (key6_of h))) [
    | inl e ↦ rw (e, route_tcp6) (new_tcp6-Ends w h k)
    | inr ((kind, mapped), e) ↦
        rw (e, route_tcp6)
          (Ends-if (drops_policy kind h.flags) _ _
            (new_tcp6-Ends (record w { policies = FlowPolicy.delete w.policies (key6_of h) }) h k)
            (Ends-if (is_intercept kind) _ _ (ends w k) (send_pass-Ends env w pkt addr k)))
  ]

  handle_ipv6_tcp-Ends : (w : World) → QueueOk w.queue → Ends (handle_ipv6_tcp env w pkt addr)
  unfolding handle_ipv6_tcp
  handle_ipv6_tcp-Ends w k = elim (Bool-cases (ltb (length pkt) 60)) [
    | inl short ↦ rw short (send_pass-Ends env w pkt addr k)
    | inr whole ↦
        let (h, e) = read_tcp6-lt pkt (ground arith) in
        rw (whole, e)
          (Ends-if (is_private_or_local_v6 h.dst) _ _ (send_pass-Ends env w pkt addr k)
            (route_tcp6-Ends w h k))
  ]

  handle_ipv6_udp-Ends : (w : World) → QueueOk w.queue → Ends (handle_ipv6_udp env w pkt addr)
  unfolding handle_ipv6_udp
  handle_ipv6_udp-Ends w k = elim (Bool-cases (ltb (length pkt) 48)) [
    | inl short ↦ rw short (send_pass-Ends env w pkt addr k)
    | inr whole ↦
        let (dp, e1) = be16-lt pkt 42 (ground arith) in
        let (sp, e2) = be16-lt pkt 40 (ground arith) in
        rw (whole, e1, e2) (Ends-if _ _ _ (send_pass-Ends env w pkt addr k) (ends w k))
  ]

  handle_ipv6-Ends : (w : World) → QueueOk w.queue → Ends (handle_ipv6 env w pkt addr)
  unfolding handle_ipv6
  handle_ipv6-Ends w k = elim (Bool-cases (ltb (length pkt) 40)) [
    | inl short ↦ rw short (send_pass-Ends env w pkt addr k)
    | inr whole ↦
        let (next, e) = get_elem?-lt pkt 6 (ground arith) in
        rw (whole, e)
          (Ends-if (next == 6) _ _ (handle_ipv6_tcp-Ends w k)
            (Ends-if (next == 17) _ _ (handle_ipv6_udp-Ends w k) (send_pass-Ends env w pkt addr k)))
  ]

  handle_protocol-Ends :
      (w : World) (ihl proto : ℕ)
      → 20 ≤ ihl
      → QueueOk w.queue
      → Ends (handle_protocol env w pkt addr ihl proto)
  unfolding handle_protocol
  handle_protocol-Ends w ihl proto long k =
      Ends-if (proto == 17) _ _ (handle_ipv4_udp-Ends w ihl long k)
        (elim (Bool-cases (ltb (length pkt) (ihl + 4))) [
          | inl short ↦ rw short (Ends-if (proto == 6) _ _ (ends w k) (ends w k))
          | inr room ↦ rw room (
              Ends-if (proto == 6) _ _
                (handle_ipv4_tcp-Ends env pkt addr ihl long (ground arith) w k) (ends w k))
        ])

  handle_ipv4-Ends :
      (w : World) (first : ℕ) → QueueOk w.queue → Ends (handle_ipv4 env w pkt addr first)
  unfolding handle_ipv4
  handle_ipv4-Ends w first k = elim (Bool-cases (ltb (length pkt) 20)) [
    | inl short ↦ rw short (ends w k)
    | inr enough ↦
        let (proto, e) = get_elem?-lt pkt 9 (ground arith) in
        elim (Bool-cases (ltb (ihl_of first) 20)) [
          | inl short ↦ rw (enough, short) (ends w k)
          | inr long ↦
              rw (enough, long, e)
                (Ends-if _ _ _ (ends w k)
                  (handle_protocol-Ends w (ihl_of first) proto (ground arith) k))
        ]
  ]

  handle_version-Ends :
      (w : World) (first : ℕ) → QueueOk w.queue → Ends (handle_version env w pkt addr first)
  unfolding handle_version
  handle_version-Ends w first k =
      Ends-if (first / 16 == 6) _ _ (handle_ipv6-Ends w k)
        (Ends-if (first / 16 == 4) _ _ (handle_ipv4-Ends w first k) (ends w k))

-- In every state whose send queue, where there is one, holds whole packets, and on every buffer,
-- `handlePacket` ends without an access out of range, in a state whose send queue holds whole
-- packets.
pub handle_packet-Ends :
    (env : Env) (w : World) (pkt : Bytes) (addr : WinDivertAddress)
    → QueueOk w.queue
    → Ends (handle_packet env w pkt addr)
unfolding handle_packet
handle_packet-Ends env w pkt addr k = elim (Bool-cases (ltb (length pkt) 1)) [
  | inl short ↦ rw short (ends w k)
  | inr enough ↦
      let (first, e) = get_elem?-lt pkt 0 (ground arith) in
      rw (enough, e) (handle_version-Ends env pkt addr w first k)
]
