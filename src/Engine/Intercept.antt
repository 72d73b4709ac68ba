-- ===== src/Engine/Intercept.antt =====
-- internal/engine/windivert.go: the state of the packet loop, the decision on a new flow, and the
-- ways a packet leaves. `World` holds the fields of `Interceptor` that the handlers read, the send
-- queue (none is the nil queue of the single-packet path) and the calls made to the driver so far.
-- `Env` is what the surroundings answer while one packet is handled. An option result is none where
-- Go would panic on an index out of range.
pub mod Flags
pub mod Hijack
pub mod Tcp4
pub mod Udp4
pub mod Ipv6
pub mod Dispatch
pub mod Emit
pub mod Routes
pub mod Wrote
pub mod Rewritten
pub mod Reversed
pub mod Total
pub mod Safe
pub mod Ended
pub mod Packets
pub mod Hijacks
pub mod Stays
pub mod Batches
pub mod Failures
pub mod Fallback
pub mod Examples
pub mod Runs
use go_pass.Base.{
  ℕ, ◌+◌, ◌*◌, Bool, true, false, List, [], ◌∷◌, ◌++◌, Option, none, some, ite, ◌==◌, if◌then◌else◌,
  Text, Text-discrete, Bytes, length, get_elem?, set, ◌>>=◌, be16, lookup,
}
pub use go_pass.Process.Flows.{Flow, UdpFlow, Ipv6TcpFlow, Ipv6UdpFlow}
use go_pass.Engine.Addr.{Ipv4, Ipv4-discrete}
use go_pass.Engine.ConnTrack.{ConnTracker}
use go_pass.Engine.FlowPolicy.{FlowPolicies, PolicyKind, pass, intercept, undecided}
use go_pass.Engine.Batch.{
  WinDivertAddress, SendQueue, DriverCall, send, push, would_overflow, count, reset, send_batch,
}

-- `lookup_*` are the answers of package process (a name, or none for `ok == false`), those for IPv6
-- before and after a refresh of the table. `to_lower` is `strings.ToLower`. `calc_checksums` is
-- `WinDivertHelperCalcChecksums`, none where it fails, and `accepts` says which calls the driver takes.
pub record Env : Type 0 where
  pub now : ℕ
  pub to_lower : Text → Text
  pub lookup_tcp : Flow → Option Text
  pub lookup_udp : UdpFlow → Option Text
  pub lookup_tcp6 : Ipv6TcpFlow → Option Text
  pub lookup_tcp6_refreshed : Ipv6TcpFlow → Option Text
  pub lookup_udp6 : Ipv6UdpFlow → Option Text
  pub lookup_udp6_refreshed : Ipv6UdpFlow → Option Text
  pub calc_checksums : Bytes → WinDivertAddress → Option (Bytes × WinDivertAddress)
  pub has_send_ex : Bool
  pub accepts : DriverCall → Bool

pub record World : Type 0 where
  pub handle : Bool
  pub tracker : ConnTracker
  pub proxy4 : Option Ipv4
  pub tproxy_port : ℕ
  pub whitelist : List (Text × Unit {0})
  pub policies : FlowPolicies
  pub queue : Option SendQueue
  pub wire : List DriverCall

unfoldable pub is_whitelisted : Env → World → Text → Bool
unfolding lookup
is_whitelisted env w name = elim (lookup Text-discrete (env.to_lower name) w.whitelist) [
  | none ↦ false
  | some _ ↦ true
]

unfoldable pub decide_new_flow : Env → World → Bool → Option Text → PolicyKind
decide_new_flow env w is_start found =
    if is_start
    then elim found [
      | none ↦ undecided
      | some name ↦ if is_whitelisted env w name then intercept else pass
    ]
    else pass

-- `!ok || e.Name == ""`
abbrev pub named : Option Text → Option Text
named none = none
named (some []) = none
named (some (c ∷ cs)) = some (c ∷ cs)

abbrev pub is_proxy : World → Ipv4 → Bool
is_proxy w dst = elim w.proxy4 [ none ↦ false | some p ↦ ite (Ipv4-discrete p dst) true false ]

-- `Send`, which refuses an empty packet by itself.
unfoldable pub send_one : Env → World → Bytes → WinDivertAddress → World × Bool
send_one env w pkt addr =
    if length pkt == 0
    then (w, false)
    else (record w { wire = w.wire ++ send pkt addr ∷ [] }, env.accepts (send pkt addr))

unfoldable pub flush_queue : Env → World → Option World
flush_queue env w = elim w.queue [
  | none ↦ some w
  | some q ↦
      if count q == 0
      then some w
      else if w.handle
      then (do
        sent ← send_batch env.has_send_ex env.accepts q
        some (record w { queue = some (reset q); wire = w.wire ++ sent.0 }))
      else some (record w { queue = some (reset q) })
]

abbrev pub enqueue : World → Bytes → WinDivertAddress → World
enqueue w pkt addr = elim w.queue [
  | none ↦ w
  | some q ↦ record w { queue = some (push q pkt addr) }
]

unfoldable pub send_pass : Env → World → Bytes → WinDivertAddress → Option World
unfolding send_one flush_queue
send_pass env w pkt addr = elim w.queue [
  | none ↦ some (if w.handle then (send_one env w pkt addr).0 else w)
  | some q ↦
      if would_overflow q (length pkt)
      then (do flushed ← flush_queue env w; some (enqueue flushed pkt addr))
      else some (enqueue w pkt addr)
]

-- `calcAndSend`; the flag is false where it returns an error.
unfoldable pub calc_and_send : Env → World → Bytes → WinDivertAddress → World × Bool
unfolding send_one
calc_and_send env w pkt addr =
    if w.handle
    then elim (env.calc_checksums pkt addr) [
      | none ↦ (w, false)
      | some (pkt', addr') ↦ elim w.queue [
        | none ↦ send_one env w pkt' addr'
        | some _ ↦ (enqueue w pkt' addr', true)
      ]
    ]
    else (w, false)

-- The four bytes of an address at an offset: `pkt[i:i+4]`, and `copy(pkt[i:i+4], a)`.
unfoldable pub read_ip4 : Bytes → ℕ → Option Ipv4
read_ip4 pkt i = do
  b0 ← get_elem? pkt i
  b1 ← get_elem? pkt (i + 1)
  b2 ← get_elem? pkt (i + 2)
  b3 ← get_elem? pkt (i + 3)
  some (record { b0 = b0; b1 = b1; b2 = b2; b3 = b3 })

unfoldable pub put_ip4 : Bytes → ℕ → Ipv4 → Option Bytes
put_ip4 pkt i a = do
  _ ← get_elem? pkt (i + 3)
  some (set (set (set (set pkt i a.b0) (i + 1) a.b1) (i + 2) a.b2) (i + 3) a.b3)

-- `binary.LittleEndian.Uint32`
abbrev pub le32 : Ipv4 → ℕ
le32 a = a.b0 + 256 * a.b1 + 65536 * a.b2 + 16777216 * a.b3
