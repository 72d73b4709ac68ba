-- ===== src/Engine/Intercept/Examples.antt =====
-- windivert.go: a SYN of a whitelisted program, and packets of its flow.
use go_pass.Base.{
  ℕ, ◌≡◌, ◌≢◌, refl, true, false, [], ◌∷◌, inl, lookup, none, some, Bytes, Text, codes, arith,
  ◌>>=◌, if◌then◌else◌, insert, be16, put_be16, Text-discrete, ℕ_discrete,
}
use go_pass.Engine.Addr.{loopback_text, is_private_or_local4}
use go_pass.Engine.ConnTrack
use go_pass.Engine.ConnTrack.{
  ConnTracker, ConnTarget, ConnKey, target_key, orig_key, ConnKey-discrete, new_conn_tracker, alloc,
  entry_of, mapped_of, set_target, has_mapped,
}
use go_pass.Engine.ConnTrack.Examples.{target_from, tracker0, tracker0-Inv, tracker1}
use go_pass.Engine.FlowPolicy
use go_pass.Engine.FlowPolicy.{
  FlowPolicies, PolicyKind, FlowKey, pass, intercept, undecided, new_flow_policies,
  is_connection_start, flow_key_v4,
}
use go_pass.Engine.Batch.{WinDivertAddress, new_send_queue, push}
use go_pass.Engine.Intercept.{Env, World, decide_new_flow, is_whitelisted, read_ip4, put_ip4}
use go_pass.Engine.Intercept.Tcp4.{
  TcpHeader, key_of, set_policy, handle_ipv4_tcp, is_closing, read_tcp4, decide_tcp4,
}
use go_pass.Engine.Intercept.Hijack.{rewrite_hijack}
use go_pass.Engine.Intercept.Failures.{unsummed_dropped}
use go_pass.Engine.Intercept.Routes.{IsOutbound, passes, midstream_direct, closing_bypasses_tproxy}
use go_pass.Engine.Intercept.Hijacks.{IsWhitelisted, Sums, Diverted, start_hijacked, hijacked_stays}
use go_pass.Engine.Intercept.Flags.{GoesOn, Starts}
use go_pass.Engine.Intercept.Stays.{Arrival, run_flow, push_all, IsOfDirect, direct_stays}
use go_pass.Engine.ConnTrack.Alloc.{IsFree}

abbrev pub browser : Text
browser = codes "browser.exe"

-- A machine where every flow belongs to one program.
abbrev pub env_of : Text → Env
env_of name = record {
  now = 0;
  to_lower = λ t. t;
  lookup_tcp = λ f. some name;
  lookup_udp = λ f. some name;
  lookup_tcp6 = λ f. some name;
  lookup_tcp6_refreshed = λ f. some name;
  lookup_udp6 = λ f. some name;
  lookup_udp6_refreshed = λ f. some name;
  calc_checksums = λ pkt addr. some (pkt, addr);
  has_send_ex = true;
  accepts = λ c. true;
}

abbrev pub world_of : ConnTracker → FlowPolicies → World
world_of tracker policies = record {
  handle = true;
  tracker = tracker;
  proxy4 = none;
  tproxy_port = 7893;
  whitelist = (browser, tt) ∷ [];
  policies = policies;
  queue = some new_send_queue;
  wire = [];
}

abbrev pub world0 : World
world0 = world_of tracker0 new_flow_policies

abbrev pub address0 : WinDivertAddress
address0 = record {
  timestamp = 0;
  bits = 0x20000;
  reserved2 = 0;
  if_idx = 7;
  sub_if_idx = 0;
  body = [];
}

-- From 192.168.1.10:51000 to 93.184.216.34:443.
abbrev pub packet_with : ℕ → Bytes
packet_with flags =
    0x45 ∷ 0 ∷ 0 ∷ 40 ∷ 0 ∷ 0 ∷ 0 ∷ 0 ∷ 64 ∷ 6 ∷ 0 ∷ 0 ∷ 192 ∷ 168 ∷ 1 ∷ 10 ∷ 93 ∷ 184 ∷ 216 ∷ 34
    ∷ 0xc7 ∷ 0x38 ∷ 0x01 ∷ 0xbb ∷ 0 ∷ 0 ∷ 0 ∷ 0 ∷ 0 ∷ 0 ∷ 0 ∷ 0 ∷ 0x50 ∷ flags ∷ 0 ∷ 0 ∷ 0 ∷ 0 ∷ 0
    ∷ 0 ∷ []

abbrev pub header_with : ℕ → TcpHeader
header_with flags = record {
  src_port = 51000;
  dst_port = 443;
  flags = flags;
  src = record { b0 = 192; b1 = 168; b2 = 1; b3 = 10 };
  dst = record { b0 = 93; b1 = 184; b2 = 216; b3 = 34 };
}

pub outbound :
    (tracker : ConnTracker) (policies : FlowPolicies) (flags : ℕ)
    → IsOutbound (world_of tracker policies) (packet_with flags) 20 (header_with flags)
unfolding read_tcp4 be16 read_ip4 is_private_or_local4
outbound tracker policies flags = record {
  whole = omega arith;
  header = refl;
  not_reply = λ e. omega (arith, e);
  not_upstream = refl;
  public = refl;
}

-- The packet on the loopback, from the mapped port 32768 to 7893.
abbrev pub rewritten_with : ℕ → Bytes
rewritten_with flags =
    0x45 ∷ 0 ∷ 0 ∷ 40 ∷ 0 ∷ 0 ∷ 0 ∷ 0 ∷ 64 ∷ 6 ∷ 0 ∷ 0 ∷ 127 ∷ 0 ∷ 0 ∷ 1 ∷ 127 ∷ 0 ∷ 0 ∷ 1 ∷ 0x80
    ∷ 0x00 ∷ 0x1e ∷ 0xd5 ∷ 0 ∷ 0 ∷ 0 ∷ 0 ∷ 0 ∷ 0 ∷ 0 ∷ 0 ∷ 0x50 ∷ flags ∷ 0 ∷ 0 ∷ 0 ∷ 0 ∷ 0 ∷ 0 ∷ []

abbrev pub rewritten_address : WinDivertAddress
rewritten_address = record address0 { bits = 0x60000 }

pub no_policy : (flags : ℕ) → FlowPolicy.get new_flow_policies (key_of (header_with flags)) ≡ none
unfolding FlowPolicy.get FlowPolicy.policy_of
no_policy flags = refl

syn-Starts : Starts 2
syn-Starts = record { goes_on = record { is_byte = omega arith; not_ended = refl }; is_syn = refl }

browser-IsWhitelisted :
    (tracker : ConnTracker) (policies : FlowPolicies)
    → IsWhitelisted (env_of browser) (world_of tracker policies) (header_with 2)
unfolding lookup Text-discrete ℕ_discrete
browser-IsWhitelisted tracker policies = record {
  name = browser;
  found = refl;
  is_named = λ e. cc;
  listed = refl;
}

-- The library leaves this packet as it is.
sums :
    (tracker : ConnTracker) (policies : FlowPolicies) (flags : ℕ)
    → Sums (env_of browser) (world_of tracker policies) (packet_with flags) address0 20
sums tracker policies flags port out a e = (out, a, refl, refl)

tracker0-IsFree : IsFree tracker0 40000
unfolding entry_of new_conn_tracker
tracker0-IsFree = (omega arith, omega arith, λ e. omega (arith, e), refl)

start_hijacked_example :
    (w' : World) × (port : ℕ) × (entry : ConnTarget) × (handle_ipv4_tcp
        (env_of browser)
        world0
        (packet_with 2)
        address0
        20
      ≡ some w')
    × Diverted w' new_send_queue 20 (header_with 2) 7893 port
    × (FlowPolicy.get w'.policies (key_of (header_with 2)) ≡ some (intercept, port))
    × (ConnTrack.get w'.tracker loopback_text port ≡ some entry)
    × (target_key entry ≡ orig_key (header_with 2).src 51000 (header_with 2).dst 443)
start_hijacked_example =
    start_hijacked (env_of browser) world0 new_send_queue (packet_with 2) address0 20
      (header_with 2) (outbound tracker0 new_flow_policies 2) refl (omega arith) refl (omega arith)
      (sums tracker0 new_flow_policies 2) 40000 (inl (no_policy 2)) syn-Starts
      (browser-IsWhitelisted tracker0 new_flow_policies) tracker0-Inv tracker0-IsFree

abbrev policies_with : PolicyKind → ℕ → FlowPolicies
policies_with kind port = FlowPolicy.set 0 new_flow_policies (key_of (header_with 2)) kind port

settled :
    (kind : PolicyKind) (port flags : ℕ)
    → FlowPolicy.get (policies_with kind port) (key_of (header_with flags)) ≡ some (kind, port)
unfolding FlowPolicy.get FlowPolicy.policy_of FlowPolicy.set insert FlowPolicy.FlowKey-discrete
    Text-discrete ℕ_discrete flow_key_v4
settled kind port flags = refl

port_live : ConnTrack.get tracker1 loopback_text 32768 ≡ some (target_from 51000 0)
unfolding ConnTrack.get set_target mapped_of entry_of alloc new_conn_tracker insert ConnKey-discrete
    Text-discrete ℕ_discrete
port_live = refl

ack-GoesOn : GoesOn 0x10
ack-GoesOn = record { is_byte = omega arith; not_ended = refl }

abbrev hijacked_world : World
hijacked_world = world_of tracker1 (policies_with intercept 32768)

hijacked_stays_example :
    (w' : World) × (handle_ipv4_tcp (env_of browser) hijacked_world (packet_with 0x10) address0 20
      ≡ some w')
    × Diverted w' new_send_queue 20 (header_with 0x10) 7893 32768
    × (w'.policies ≡ hijacked_world.policies)
    × (w'.tracker ≡ hijacked_world.tracker)
hijacked_stays_example =
    hijacked_stays (env_of browser) hijacked_world new_send_queue (packet_with 0x10) address0 20
      (header_with 0x10) (outbound tracker1 (policies_with intercept 32768) 0x10) refl (omega arith)
      refl (omega arith) (sums tracker1 (policies_with intercept 32768) 0x10) 32768
      (target_from 51000 0) (settled intercept 32768 0x10) port_live (omega arith) (omega arith)
      ack-GoesOn

-- The flow was let through before the browser came on the whitelist; its SYN comes again, and an ACK.
abbrev passed_world : World
passed_world = world_of tracker0 (policies_with pass 0)

abbrev arrival : ℕ → Arrival
arrival flags = record {
  env = env_of browser;
  whitelist = (browser, tt) ∷ [];
  pkt = packet_with flags;
  addr = address0;
  ihl = 20;
  header = header_with flags;
}

arrival-IsOfDirect :
    (flags : ℕ)
    → GoesOn flags
    → IsOfDirect passed_world (key_of (header_with 2)) pass (arrival flags)
arrival-IsOfDirect flags g = record {
  outbound = outbound tracker0 (policies_with pass 0) flags;
  is_key = refl;
  goes_on = g;
  keeps = inl refl;
}

direct_stays_example :
    run_flow passed_world (arrival 2 ∷ arrival 0x10 ∷ [])
    ≡ some (record passed_world {
      queue = some (push_all new_send_queue (arrival 2 ∷ arrival 0x10 ∷ []));
    })
unfolding new_send_queue
direct_stays_example =
    direct_stays (arrival 2 ∷ arrival 0x10 ∷ []) passed_world new_send_queue
      (key_of (header_with 2)) pass 0 refl (settled pass 0 2)
      (arrival-IsOfDirect 2 syn-Starts.goes_on, (arrival-IsOfDirect 0x10 ack-GoesOn, tt))
      (omega arith)

ack_late : is_connection_start 0x10 ≡ false
unfolding is_connection_start
ack_late = refl

midstream_direct_example :
    handle_ipv4_tcp (env_of browser) world0 (packet_with 0x10) address0 20
    ≡ some (
        if is_closing 0x10
        then passes world0 new_send_queue (packet_with 0x10) address0
        else passes
            (set_policy (env_of browser) world0 (key_of (header_with 0x10)) pass 0)
            new_send_queue
            (packet_with 0x10)
            address0)
unfolding new_send_queue
midstream_direct_example =
    midstream_direct (env_of browser) world0 new_send_queue (packet_with 0x10) address0 20
      (header_with 0x10) (outbound tracker0 new_flow_policies 0x10) refl (omega arith)
      (no_policy 0x10) ack_late

abbrev other : Text
other = codes "other.exe"

other_direct : decide_tcp4 (env_of other) world0 (header_with 2) ≢ intercept
unfolding decide_new_flow is_connection_start is_whitelisted Text-discrete ℕ_discrete
other_direct = λ e. cc

closing_bypasses_tproxy_example :
    (w' : World) × (handle_ipv4_tcp (env_of browser) hijacked_world (packet_with 0x11) address0 20
      ≡ some w')
    × (w'.queue ≡ some (push new_send_queue (packet_with 0x11) address0))
    × (FlowPolicy.get w'.policies (key_of (header_with 0x11)) ≡ none)
    × ((k : FlowKey)
        → key_of (header_with 0x11) ≢ k
        → FlowPolicy.get w'.policies k ≡ FlowPolicy.get hijacked_world.policies k)
    × (w'.tracker ≡ hijacked_world.tracker)
unfolding new_send_queue
closing_bypasses_tproxy_example =
    closing_bypasses_tproxy (env_of browser) hijacked_world new_send_queue (packet_with 0x11)
      address0 20 (header_with 0x11) (outbound tracker1 (policies_with intercept 32768) 0x11) refl
      (omega arith) 32768 (settled intercept 32768 0x11) (omega arith) refl

-- The same browser on a machine where no checksum can be computed.
abbrev unsummed : Env
unsummed = record (env_of browser) { calc_checksums = λ pkt addr. none }

unsummed-IsWhitelisted : IsWhitelisted unsummed world0 (header_with 2)
unfolding lookup Text-discrete ℕ_discrete
unsummed-IsWhitelisted = record { name = browser; found = refl; is_named = λ e. cc; listed = refl }

unsummed_fails :
    (port : ℕ)
    → (rewrite_hijack (packet_with 2) address0 20 port 7893 >>= λ r.
        unsummed.calc_checksums r.0 r.1)
      ≡ none
unfolding rewrite_hijack put_ip4 put_be16
unsummed_fails port = refl

unknown : mapped_of (orig_key (header_with 2).src 51000 (header_with 2).dst 443) tracker0 ≡ none
unfolding mapped_of new_conn_tracker
unknown = refl

unsummed_dropped_example :
    (w' : World) × (handle_ipv4_tcp unsummed world0 (packet_with 2) address0 20 ≡ some w')
    × (w'.queue ≡ world0.queue)
    × (w'.wire ≡ world0.wire)
    × ((k : ConnKey) → entry_of k w'.tracker ≡ entry_of k world0.tracker)
    × (FlowPolicy.get w'.policies (key_of (header_with 2)) ≡ some (pass, 0))
unsummed_dropped_example =
    unsummed_dropped unsummed world0 new_send_queue (packet_with 2) address0 20 (header_with 2)
      (outbound tracker0 new_flow_policies 2) refl 40000 (omega arith) (inl (no_policy 2))
      syn-Starts unsummed-IsWhitelisted tracker0-Inv tracker0-IsFree unknown unsummed_fails
