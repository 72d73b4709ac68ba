-- ===== src/Engine/Intercept/Hijack.antt =====
-- windivert.go: the rewriting of packets to and from the TProxy.
use go_pass.Base.{
  ℕ, ◌+◌, Option, none, some, if◌then◌else◌, ite, bit_and, bit_or, Bytes, ◌>>=◌, be16, put_be16,
}
use go_pass.Engine.Addr.{Ipv4, Ipv4-discrete, loopback_v4, loopback_text, ip_string, is_loopback4}
use go_pass.Engine.ConnTrack.{ConnTarget, set_target, get, delete}
use go_pass.Engine.Batch.{WinDivertAddress}
use go_pass.Engine.Intercept.{Env, World, send_pass, calc_and_send, read_ip4, put_ip4}

-- flagOutbound | flagLoopback
abbrev pub loopback_flags : ℕ
loopback_flags = 0x60000

unfoldable pub rewrite_hijack :
    Bytes → WinDivertAddress → ℕ → ℕ → ℕ → Option (Bytes × WinDivertAddress)
rewrite_hijack pkt addr ihl mapped_port tproxy_port = do
  p1 ← put_ip4 pkt 12 loopback_v4
  p2 ← put_ip4 p1 16 loopback_v4
  p3 ← put_be16 p2 ihl mapped_port
  p4 ← put_be16 p3 (ihl + 2) tproxy_port
  some (p4, record addr { bits = bit_or addr.bits loopback_flags })

-- What a packet's connection is registered as.
abbrev pub target_of : Env → WinDivertAddress → Ipv4 → Ipv4 → ℕ → ℕ → ConnTarget
target_of env addr src dst src_port dst_port = record {
  orig_src_ip = src;
  orig_src_port = src_port;
  orig_dst_ip = dst;
  orig_dst_port = dst_port;
  orig_if_idx = addr.if_idx;
  orig_sub_if_idx = addr.sub_if_idx;
  created_at = env.now;
}

-- The end of `hijackTCP`, with the connection registered under `mapped`.
unfoldable pub hijack_registered :
    Env → World → Bytes → WinDivertAddress → ℕ → ℕ → Option (World × ℕ)
hijack_registered env w pkt addr ihl mapped = do
  rewritten ← rewrite_hijack pkt addr ihl mapped w.tproxy_port
  let sent = calc_and_send env w rewritten.0 rewritten.1
  let w' = sent.0
  some (
      if sent.1
      then (w', mapped)
      else (record w' { tracker = delete w'.tracker loopback_text mapped }, 0))

-- `hijackTCP`: the new state and the mapped port, 0 where the packet was not hijacked.
unfoldable pub hijack_tcp :
    Env → World → Bytes → WinDivertAddress → Ipv4 → Ipv4 → ℕ → ℕ → ℕ → Option (World × ℕ)
unfolding hijack_registered
hijack_tcp env w pkt addr src dst src_port dst_port ihl =
    let registered = set_target w.tracker (target_of env addr src dst src_port dst_port) in
    let w' = record w { tracker = registered.0 } in
    elim registered.1 [
      | none ↦ do passed ← send_pass env w' pkt addr; some (passed, 0)
      | some mapped ↦ hijack_registered env w' pkt addr ihl mapped
    ]

unfoldable pub hijack_with_port : Env → World → Bytes → WinDivertAddress → ℕ → ℕ → ℕ → Option World
hijack_with_port env w pkt addr mapped_port tproxy_port ihl = do
  rewritten ← rewrite_hijack pkt addr ihl mapped_port tproxy_port
  some (calc_and_send env w rewritten.0 rewritten.1).0

abbrev pub nat_address : WinDivertAddress → ConnTarget → WinDivertAddress
nat_address addr target = record addr {
  bits =
      if is_loopback4 target.orig_src_ip
      then bit_or addr.bits loopback_flags
      else bit_and addr.bits 0xfff9ffff;
  if_idx = target.orig_if_idx;
  sub_if_idx = target.orig_sub_if_idx;
}

-- The rewriting in `reverseNAT`, once the connection is known.
unfoldable pub rewrite_reply :
    Bytes → WinDivertAddress → ℕ → ConnTarget → Option (Bytes × WinDivertAddress)
rewrite_reply pkt addr ihl target = do
  p1 ← put_ip4 pkt 12 target.orig_dst_ip
  p2 ← put_be16 p1 ihl target.orig_dst_port
  p3 ← put_ip4 p2 16 target.orig_src_ip
  p4 ← put_be16 p3 (ihl + 2) target.orig_src_port
  some (p4, nat_address addr target)

-- The end of `reverseNAT`, on the connection found, if any.
unfoldable pub reply_to :
    Env → World → Bytes → WinDivertAddress → ℕ → Option ConnTarget → Option World
unfolding rewrite_reply
reply_to env w pkt addr ihl none = send_pass env w pkt addr
reply_to env w pkt addr ihl (some target) = do
  rewritten ← rewrite_reply pkt addr ihl target
  some (calc_and_send env w rewritten.0 rewritten.1).0

unfoldable pub reverse_nat : Env → World → Bytes → WinDivertAddress → ℕ → Option World
unfolding reply_to
reverse_nat env w pkt addr ihl = do
  d ← read_ip4 pkt 16
  let ip_key = ite (Ipv4-discrete d loopback_v4) loopback_text (ip_string d)
  dst_port ← be16 pkt (ihl + 2)
  reply_to env w pkt addr ihl (get w.tracker ip_key dst_port)
