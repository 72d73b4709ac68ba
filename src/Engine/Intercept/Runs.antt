-- ===== src/Engine/Intercept/Runs.antt =====
-- windivert.go: whole buffers, and a browser that tries IPv6.
use go_pass.Base.{
  ℕ, ◌≡◌, refl, false, List, [], ◌∷◌, none, some, replicate, Bytes, arith, ◌>>=◌, be16,
  Text-discrete, ℕ_discrete,
}
use go_pass.Engine.Addr.{is_private_or_local_v6}
use go_pass.Engine.FlowPolicy
use go_pass.Engine.FlowPolicy.{intercept, new_flow_policies, is_connection_start}
use go_pass.Engine.Batch.{new_send_queue}
use go_pass.Engine.Batch.Queue.{Packet, buf_of, addrs_of, new_send_queue-Holds}
use go_pass.Engine.Batch.Examples.{packet4, packet6, packet4_whole, packet6_whole}
use go_pass.Engine.Intercept.{Env, decide_new_flow, is_whitelisted}
use go_pass.Engine.Intercept.Emit.{QueueOk, Ends}
use go_pass.Engine.Intercept.Tcp4.{is_closing, set_policy}
use go_pass.Engine.Intercept.Ipv6.{Tcp6Header, read_tcp6, key6_of, decide_tcp6, handle_ipv6_tcp}
use go_pass.Engine.Intercept.Dispatch.{handle_packet, split, process_batch}
use go_pass.Engine.Intercept.Packets.{handle_packet-Ends}
use go_pass.Engine.Intercept.Batches.{handle_each, process_batch-buf_of}
use go_pass.Engine.Intercept.Fallback.{IsOutbound6, ipv6_blocked}
use go_pass.Engine.Intercept.Examples.{browser, env_of, world0, address0, packet_with}

queue0 : QueueOk (some new_send_queue)
queue0 = ([], new_send_queue-Holds)

handle_packet-Ends_example : Ends (handle_packet (env_of browser) world0 (packet_with 2) address0)
handle_packet-Ends_example =
    handle_packet-Ends (env_of browser) world0 (packet_with 2) address0 queue0

abbrev envs0 : ℕ → Env
envs0 p = env_of browser

abbrev row : List Packet
row = (packet4, address0) ∷ (packet6, address0) ∷ []

process_batch-buf_of_example :
    process_batch envs0 0 world0 (buf_of row) (addrs_of row)
    ≡ (handle_each envs0 0 world0 row >>= λ w. some (w, split))
process_batch-buf_of_example =
    process_batch-buf_of envs0 0 world0 row (packet4_whole, (packet6_whole, tt))

-- From a public address to another one, ports 51000 and 443.
abbrev source6 : Bytes
source6 = 0x20 ∷ 0x01 ∷ 0x0d ∷ 0xb8 ∷ replicate 12 1

abbrev server6 : Bytes
server6 = 0x26 ∷ 0x06 ∷ 0x28 ∷ 0x00 ∷ 0x02 ∷ 0x20 ∷ replicate 10 1

abbrev tcp6_with : ℕ → Bytes
tcp6_with flags =
    0x60
    ∷ 0
    ∷ 0
    ∷ 0
    ∷ 0
    ∷ 20
    ∷ 6
    ∷ 64
    ∷ 0x20
    ∷ 0x01
    ∷ 0x0d
    ∷ 0xb8
    ∷ 1
    ∷ 1
    ∷ 1
    ∷ 1
    ∷ 1
    ∷ 1
    ∷ 1
    ∷ 1
    ∷ 1
    ∷ 1
    ∷ 1
    ∷ 1
    ∷ 0x26
    ∷ 0x06
    ∷ 0x28
    ∷ 0x00
    ∷ 0x02
    ∷ 0x20
    ∷ 1
    ∷ 1
    ∷ 1
    ∷ 1
    ∷ 1
    ∷ 1
    ∷ 1
    ∷ 1
    ∷ 1
    ∷ 1
    ∷ 0xc7
    ∷ 0x38
    ∷ 0x01
    ∷ 0xbb
    ∷ 0
    ∷ 0
    ∷ 0
    ∷ 0
    ∷ 0
    ∷ 0
    ∷ 0
    ∷ 0
    ∷ 0x50
    ∷ flags
    ∷ replicate 6 0

abbrev header6_with : ℕ → Tcp6Header
header6_with flags = record {
  src_port = 51000;
  dst_port = 443;
  flags = flags;
  src = source6;
  dst = server6;
}

outbound6 : (flags : ℕ) → IsOutbound6 (tcp6_with flags) (header6_with flags)
unfolding read_tcp6 be16 is_private_or_local_v6
outbound6 flags = record { whole = omega arith; header = refl; public = refl }

no_policy6 : FlowPolicy.get new_flow_policies (key6_of (header6_with 2)) ≡ none
unfolding FlowPolicy.get FlowPolicy.policy_of
no_policy6 = refl

browser_decided6 : decide_tcp6 (env_of browser) world0 (header6_with 2) ≡ intercept
unfolding decide_new_flow is_connection_start is_whitelisted Text-discrete ℕ_discrete
browser_decided6 = refl

open6 : (is_closing 2 ≡ false) × (is_closing 0x10 ≡ false)
unfolding is_closing
open6 = (refl, refl)

ipv6_blocked_example :
    (handle_ipv6_tcp (env_of browser) world0 (tcp6_with 2) address0
      ≡ some (set_policy (env_of browser) world0 (key6_of (header6_with 2)) intercept 0))
    × (handle_ipv6_tcp
          (env_of [])
          (set_policy (env_of browser) world0 (key6_of (header6_with 2)) intercept 0)
          (tcp6_with 0x10)
          address0
        ≡ some (set_policy (env_of browser) world0 (key6_of (header6_with 2)) intercept 0))
ipv6_blocked_example =
    ipv6_blocked (env_of browser) (env_of []) world0 (tcp6_with 2) (tcp6_with 0x10) address0
      address0 (header6_with 2) (header6_with 0x10) (outbound6 2) no_policy6 (open6.0)
      browser_decided6 (outbound6 0x10) refl (open6.1)
