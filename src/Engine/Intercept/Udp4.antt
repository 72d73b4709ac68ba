-- ===== src/Engine/Intercept/Udp4.antt =====
-- windivert.go, `handleIPv4UDP`: QUIC of whitelisted processes is dropped.
use go_pass.Base.{
  ℕ, ◌+◌, Bool, false, not, Option, none, some, ltb, ◌==◌, if◌then◌else◌, Bytes, Text, ◌>>=◌, be16,
  length,
}
use go_pass.Engine.Addr.{Ipv4, is_private_or_local4}
use go_pass.Engine.Batch.{WinDivertAddress}
use go_pass.Engine.Intercept.{Env, World, is_whitelisted, is_proxy, send_pass, read_ip4, le32}

-- Does a lookup name a whitelisted process?
abbrev pub found_whitelisted : Env → World → Option Text → Bool
found_whitelisted env w none = false
found_whitelisted env w (some name) = is_whitelisted env w name

unfoldable pub route_udp4 :
    Env → World → Bytes → WinDivertAddress → ℕ → ℕ → Ipv4 → Ipv4 → Option World
route_udp4 env w pkt addr src_port dst_port src dst =
    if not (dst_port == 443)
    then send_pass env w pkt addr
    else if is_private_or_local4 dst.b0 dst.b1 dst.b2 dst.b3
    then send_pass env w pkt addr
    else if is_proxy w dst
    then send_pass env w pkt addr
    else if found_whitelisted env w
        (env.lookup_udp (record { local_ip = le32 src; local_port = src_port }))
    then some w
    else send_pass env w pkt addr

unfoldable pub handle_ipv4_udp : Env → World → Bytes → WinDivertAddress → ℕ → Option World
unfolding route_udp4
handle_ipv4_udp env w pkt addr ihl =
    if ltb (length pkt) (ihl + 8) then send_pass env w pkt addr else (do
      src_port ← be16 pkt ihl
      dst_port ← be16 pkt (ihl + 2)
      dst ← read_ip4 pkt 16
      src ← read_ip4 pkt 12
      route_udp4 env w pkt addr src_port dst_port src dst)
