-- ===== src/Engine/Intercept/Reversed/Examples.antt =====
-- windivert.go: the SYN of a browser, hijacked, and the TProxy's SYN-ACK.
use go_pass.Base.{◌≡◌, refl, arith, some, [], ◌∷◌, Bytes, be16, put_be16}
use go_pass.Engine.Addr.{loopback_v4}
use go_pass.Engine.ConnTrack.Examples.{tracker0-Inv, tracker1, first_port, first_fresh, target_from}
use go_pass.Engine.FlowPolicy.{new_flow_policies}
use go_pass.Engine.Intercept.{put_ip4, read_ip4}
use go_pass.Engine.Intercept.Examples.{
  env_of, browser, world0, world_of, packet_with, header_with, address0, rewritten_with,
  rewritten_address,
}
use go_pass.Engine.Intercept.Hijack.{rewrite_hijack}
use go_pass.Engine.Intercept.Tcp4.{TcpHeader, read_tcp4}
use go_pass.Engine.Intercept.Reversed.{Restored, reply-Restored}

-- From 127.0.0.1:7893 to 127.0.0.1:32768.
abbrev syn_ack : Bytes
syn_ack =
    0x45 ∷ 0 ∷ 0 ∷ 40 ∷ 0 ∷ 0 ∷ 0 ∷ 0 ∷ 64 ∷ 6 ∷ 0 ∷ 0 ∷ 127 ∷ 0 ∷ 0 ∷ 1 ∷ 127 ∷ 0 ∷ 0 ∷ 1 ∷ 0x1e
    ∷ 0xd5 ∷ 0x80 ∷ 0x00 ∷ 0 ∷ 0 ∷ 0 ∷ 0 ∷ 0 ∷ 0 ∷ 0 ∷ 0 ∷ 0x50 ∷ 0x12 ∷ 0 ∷ 0 ∷ 0 ∷ 0 ∷ 0 ∷ 0 ∷ []

abbrev to_tproxy : TcpHeader
to_tproxy = record {
  src_port = 32768;
  dst_port = 7893;
  flags = 2;
  src = loopback_v4;
  dst = loopback_v4;
}

abbrev from_tproxy : TcpHeader
from_tproxy = record {
  src_port = 7893;
  dst_port = 32768;
  flags = 0x12;
  src = loopback_v4;
  dst = loopback_v4;
}

syn_read : read_tcp4 (packet_with 2) 20 ≡ some (header_with 2)
unfolding read_tcp4 be16 read_ip4
syn_read = refl

syn_rewritten :
    rewrite_hijack (packet_with 2) address0 20 32768 7893
    ≡ some (rewritten_with 2, rewritten_address)
unfolding rewrite_hijack put_ip4 put_be16
syn_rewritten = refl

rewritten_read : read_tcp4 (rewritten_with 2) 20 ≡ some to_tproxy
unfolding read_tcp4 be16 read_ip4
rewritten_read = refl

syn_ack_read : read_tcp4 syn_ack 20 ≡ some from_tproxy
unfolding read_tcp4 be16 read_ip4
syn_ack_read = refl

reply-Restored_example :
    Restored
      (env_of browser)
      (world_of tracker1 new_flow_policies)
      from_tproxy
      (header_with 2)
      (target_from 51000 0)
      syn_ack
      address0
      20
reply-Restored_example =
    reply-Restored (env_of browser) (env_of browser) world0 (world_of tracker1 new_flow_policies)
      (packet_with 2) syn_ack address0 address0 20 20 (header_with 2) to_tproxy from_tproxy tracker1
      32768 (rewritten_with 2, rewritten_address) tracker0-Inv (omega arith) (omega arith)
      (omega arith) (omega arith) (omega arith) (omega arith) (omega arith) syn_read first_fresh
      first_port syn_rewritten rewritten_read syn_ack_read
      (record { src_port_is = refl; dst_port_is = refl; src_is = refl; dst_is = refl }) refl refl
