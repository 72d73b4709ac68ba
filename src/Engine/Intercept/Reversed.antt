-- ===== src/Engine/Intercept/Reversed.antt =====
-- windivert.go: a hijacked packet, the reply that the TProxy gives to it, and what the client sees of it.
pub mod Examples
use go_pass.Base.{
  ℕ, ◌+◌, ◌/◌, ◌%◌, [], ◌∷◌, ◌≤◌, ◌<◌, ◌≡◌, ◌∙◌, refl, sym, ap, true, false, Option, some, inl, inr,
  arith, length, get_elem?, Bytes, none, ◌>>=◌, be16, bit_or, ite, ℕ_discrete, ltb, ◌==◌,
  if◌then◌else◌,
}
use mathlib.Core.Option.{some-injective}
use go_pass.Engine.Addr.{Ipv4, loopback_v4, loopback_text, Ipv4-discrete, ip_string}
use go_pass.Engine.ConnTrack.{
  ConnTracker, ConnTarget, set_target, get, mapped_of, target_key, mapped_port_max,
}
use go_pass.Engine.ConnTrack.Invariant.{Inv}
use go_pass.Engine.ConnTrack.Flows.{set_target-get, set_target-in_pool}
use go_pass.Engine.Batch.{WinDivertAddress}
use go_pass.Engine.Intercept.{Env, World, calc_and_send, read_ip4}
use go_pass.Engine.Intercept.Hijack.{
  rewrite_hijack, rewrite_reply, nat_address, target_of, reverse_nat, reply_to, loopback_flags,
}
use go_pass.Engine.Intercept.Tcp4.{TcpHeader, read_tcp4, handle_ipv4_tcp, dispatch_tcp4}
use go_pass.Engine.Intercept.Rewritten.{
  Reads, read_tcp4_dst, rewrite_hijack-Reads, rewrite_reply-Reads,
}
use go_pass.Engine.Intercept.Wrote.{
  Wrote, put_be16-Wrote, put_ip4-Wrote, byte-Apart, be16-Apart, read_ip4-Apart, be16-Wrote,
  read_ip4-Wrote,
}

loopback_key :
    ite (Ipv4-discrete loopback_v4 loopback_v4) loopback_text (ip_string loopback_v4)
    ≡ loopback_text
unfolding Ipv4-discrete ℕ_discrete
loopback_key = refl

module _ (env : Env) (w : World) (p : Bytes) (addr : WinDivertAddress) (ihl : ℕ) where
  reverse_nat_found :
      (target : ConnTarget) (out : Bytes) (port : ℕ) (addr' : WinDivertAddress)
      → read_ip4 p 16 ≡ some loopback_v4
      → be16 p (ihl + 2) ≡ some port
      → get w.tracker loopback_text port ≡ some target
      → rewrite_reply p addr ihl target ≡ some (out, addr')
      → reverse_nat env w p addr ihl ≡ some (calc_and_send env w out addr').0
  unfolding reverse_nat reply_to
  reverse_nat_found target out port addr' to at found e = rw (to, at, loopback_key, found, e) refl

  handle-reverse_nat :
      (h : TcpHeader)
      → ihl + 20 ≤ length p
      → read_tcp4 p ihl ≡ some h
      → h.src_port ≡ w.tproxy_port
      → handle_ipv4_tcp env w p addr ihl ≡ reverse_nat env w p addr ihl
  unfolding handle_ipv4_tcp dispatch_tcp4
  handle-reverse_nat h whole read from = ground arith

-- One header answers the other: from where it goes to where it comes from.
pub record Answers (h r : TcpHeader) : Type 0 where
  pub src_port_is : r.src_port ≡ h.dst_port
  pub dst_port_is : r.dst_port ≡ h.src_port
  pub src_is : r.src ≡ h.dst
  pub dst_is : r.dst ≡ h.src

-- What becomes of the reply: a packet with a header that answers `h`, and with the reply's flags.
pub record Restored (env : Env) (w : World) (r : TcpHeader) (h : TcpHeader) (target : ConnTarget)
    (reply : Bytes) (addr : WinDivertAddress) (ihl : ℕ) : Type 0 where
  pub out : Bytes
  pub header : TcpHeader
  pub sent :
      handle_ipv4_tcp env w reply addr ihl
      ≡ some (calc_and_send env w out (nat_address addr target)).0
  pub reads : read_tcp4 out ihl ≡ some header
  pub answers : Answers h header
  pub flags_are : header.flags ≡ r.flags

-- A packet is hijacked: it has at least 20 bytes of IPv4 header and 20 of TCP, its header reads `h` with ports
-- of 16 bits, and on a valid tracker without a port for its connection `Set` gives one, with which the packet
-- is rewritten so that its header reads `hijacked`. Then for every packet that is long enough and whose
-- header answers `hijacked`, in every state in which the TProxy's port is the same and the tracker's entry
-- for the given port is as `Set` left it: `handleIPv4TCP` hands on, with new checksums, a packet whose header
-- answers `h` and has the flags of the reply.
pub reply-Restored :
    (env env' : Env) (w w' : World) (pkt reply : Bytes) (addr addr' : WinDivertAddress)
    (ihl ihl' : ℕ) (h hijacked r : TcpHeader) (t' : ConnTracker) (port : ℕ)
    (out : Bytes × WinDivertAddress)
    → Inv w.tracker
    → 20 ≤ ihl
    → ihl + 20 ≤ length pkt
    → 20 ≤ ihl'
    → ihl' + 20 ≤ length reply
    → w.tproxy_port < 65536
    → h.src_port < 65536
    → h.dst_port < 65536
    → read_tcp4 pkt ihl ≡ some h
    → mapped_of (target_key (target_of env addr h.src h.dst h.src_port h.dst_port)) w.tracker ≡ none
    → set_target w.tracker (target_of env addr h.src h.dst h.src_port h.dst_port) ≡ (t', some port)
    → rewrite_hijack pkt addr ihl port w.tproxy_port ≡ some out
    → read_tcp4 out.0 ihl ≡ some hijacked
    → read_tcp4 reply ihl' ≡ some r
    → Answers hijacked r
    → w'.tproxy_port ≡ w.tproxy_port
    → get w'.tracker loopback_text port ≡ get t' loopback_text port
    → Restored env' w' r h (target_of env addr h.src h.dst h.src_port h.dst_port) reply addr' ihl'
reply-Restored env env' w w' pkt reply addr addr' ihl ihl' h hijacked r t' port out inv l1 l2 l3 l4
      tp sp dp read fresh done rewritten read' back answer same_port kept =
    let target = target_of env addr h.src h.dst h.src_port h.dst_port in
    let (low, high) = set_target-in_pool w.tracker target t' port inv done in
    let there =
      rewrite_hijack-Reads pkt addr ihl l1 l2 h read port w.tproxy_port (omega arith) tp in
    let back_again = rewrite_reply-Reads reply addr' ihl' l3 l4 r back target sp dp in
    let same = some-injective _ _ (
      sym read'
      ∙ ap (λ (x : Bytes × WinDivertAddress). read_tcp4 x.0 ihl)
          (some-injective _ _ (sym rewritten ∙ there.result))
      ∙ there.reads) in
    let from = answer.src_port_is ∙ ap (λ (x : TcpHeader). x.dst_port) same ∙ sym same_port in
    let to = answer.dst_port_is ∙ ap (λ (x : TcpHeader). x.src_port) same in
    let at = answer.dst_is ∙ ap (λ (x : TcpHeader). x.src) same in
    let (port_read, dst_read) = read_tcp4_dst reply ihl' r back in
    record {
      out = back_again.out;
      header = record {
        src_port = h.dst_port;
        dst_port = h.src_port;
        flags = r.flags;
        src = h.dst;
        dst = h.src;
      };
      sent =
          handle-reverse_nat env' w' reply addr' ihl' r l4 back from
          ∙ reverse_nat_found env' w' reply addr' ihl' target back_again.out port
              (nat_address addr' target) (dst_read ∙ ap some at) (port_read ∙ ap some to)
              (kept ∙ set_target-get w.tracker t' target port inv done fresh) back_again.result;
      reads = back_again.reads;
      answers = record { src_port_is = refl; dst_port_is = refl; src_is = refl; dst_is = refl };
      flags_are = refl;
    }
