-- ===== src/Engine/Intercept/Stays.antt =====
-- windivert.go, `handleIPv4TCP`: the packets of a flow that was let through, one after the other.
use go_pass.Base.{
  ℕ, ◌+◌, ◌≤◌, ◌≡◌, ◌∙◌, refl, [], ◌∷◌, List, Option, some, arith, length, Bytes, Text, ◌>>=◌,
  length-append,
}
use go_pass.Engine.FlowPolicy
use go_pass.Engine.FlowPolicy.{PolicyKind, FlowKey}
use go_pass.Engine.Batch.{WinDivertAddress, SendQueue, push, recv_buf_size}
use go_pass.Engine.Intercept.{Env, World}
use go_pass.Engine.Intercept.Tcp4.{TcpHeader, key_of, handle_ipv4_tcp}
use go_pass.Engine.Intercept.Flags.{GoesOn, KeepsDirect}
use go_pass.Engine.Intercept.Routes.{IsOutbound, direct_step}

-- A packet, with the time and the processes as they are when it comes, and the whitelist of that time.
pub record Arrival : Type 0 where
  pub env : Env
  pub whitelist : List (Text × Unit {0})
  pub pkt : Bytes
  pub addr : WinDivertAddress
  pub ihl : ℕ
  pub header : TcpHeader

-- The packets that come, handled in their order.
unfoldable pub run_flow : World → List Arrival → Option World
run_flow w [] = some w
run_flow w (a ∷ rest) = do
  w' ← handle_ipv4_tcp a.env (record w { whitelist = a.whitelist }) a.pkt a.addr a.ihl
  run_flow w' rest

abbrev pub last_whitelist : List (Text × Unit {0}) → List Arrival → List (Text × Unit {0})
last_whitelist l [] = l
last_whitelist l (a ∷ rest) = last_whitelist a.whitelist rest

abbrev pub push_all : SendQueue → List Arrival → SendQueue
push_all q [] = q
push_all q (a ∷ rest) = push_all (push q a.pkt a.addr) rest

abbrev pub size_of : List Arrival → ℕ
size_of [] = 0
size_of (a ∷ rest) = length a.pkt + size_of rest

-- A packet of the flow `key` with flags on which a policy of this kind stays.
pub record IsOfDirect (w : World) (key : FlowKey) (kind : PolicyKind) (a : Arrival) : Type 0 where
  pub outbound : IsOutbound w a.pkt a.ihl a.header
  pub is_key : key_of a.header ≡ key
  pub goes_on : GoesOn a.header.flags
  pub keeps : KeepsDirect kind a.header.flags

abbrev pub AllDirect : World → FlowKey → PolicyKind → List Arrival → Type 0
AllDirect w key kind [] = Unit {0}
AllDirect w key kind (a ∷ rest) = IsOfDirect w key kind a × AllDirect w key kind rest

-- The world with another whitelist and another queue.
abbrev moved : World → List (Text × Unit {0}) → SendQueue → World
moved w l q = record w { whitelist = l; queue = some q }

IsOfDirect-moved :
    (w : World) (l : List (Text × Unit {0})) (q : SendQueue) (key : FlowKey) (kind : PolicyKind)
    (a : Arrival)
    → IsOfDirect w key kind a
    → IsOfDirect (moved w l q) key kind a
IsOfDirect-moved w l q key kind a d = record {
  outbound = record {
    whole = d.outbound.whole;
    header = d.outbound.header;
    not_reply = d.outbound.not_reply;
    not_upstream = d.outbound.not_upstream;
    public = d.outbound.public;
  };
  is_key = d.is_key;
  goes_on = d.goes_on;
  keeps = d.keeps;
}

AllDirect-moved :
    (w : World) (l : List (Text × Unit {0})) (q : SendQueue) (key : FlowKey) (kind : PolicyKind)
    (rest : List Arrival)
    → AllDirect w key kind rest
    → AllDirect (moved w l q) key kind rest
AllDirect-moved w l q key kind [] d = tt
AllDirect-moved w l q key kind (a ∷ rest) (d, ds) =
    (IsOfDirect-moved w l q key kind a d, AllDirect-moved w l q key kind rest ds)

push-length :
    (q : SendQueue) (pkt : Bytes) (addr : WinDivertAddress)
    → length (push q pkt addr).buf ≡ length q.buf + length pkt
unfolding push
push-length q [] addr = omega arith
push-length q (b ∷ pkt) addr = ground (arith, length-append q.buf (b ∷ pkt))

run_flow-cons :
    (w w' : World) (a : Arrival) (rest : List Arrival)
    → handle_ipv4_tcp a.env (record w { whitelist = a.whitelist }) a.pkt a.addr a.ihl ≡ some w'
    → run_flow w (a ∷ rest) ≡ run_flow w' rest
unfolding run_flow
run_flow-cons w w' a rest e = rw e refl

-- Once a flow was let through it stays direct: whatever the time, the process lookup and the whitelist are
-- when its packets come, they are all queued unchanged and in order, and neither the policies, the
-- tracker nor anything else changes. The packets are whole, to a public address that is not the upstream
-- proxy's, no replies of the TProxy, without FIN and RST, and the queue has room for them; the policy is
-- pass, on which a SYN changes nothing either, or it is undecided and no packet is a SYN without ACK.
pub direct_stays :
    (rest : List Arrival) (w : World) (q : SendQueue) (key : FlowKey) (kind : PolicyKind)
    (mapped : ℕ)
    → w.queue ≡ some q
    → FlowPolicy.get w.policies key ≡ some (kind, mapped)
    → AllDirect w key kind rest
    → length q.buf + size_of rest ≤ recv_buf_size
    → run_flow w rest
      ≡ some
          (record w { whitelist = last_whitelist w.whitelist rest; queue = some (push_all q rest) })
direct_stays [] w q key kind mapped queued e d room =
    unfold run_flow in λ i. some (record w { queue = queued i })
direct_stays (a ∷ rest) w q key kind mapped queued e (d, ds) room =
    let first =
      direct_step a.env (record w { whitelist = a.whitelist }) q a.pkt a.addr a.ihl a.header
        (outbound d) queued (omega (arith, room)) kind mapped (rw d.is_key e) d.goes_on d.keeps in
    run_flow-cons w _ a rest first
    ∙ direct_stays rest (moved w a.whitelist (push q a.pkt a.addr)) (push q a.pkt a.addr) key kind
        mapped refl e (AllDirect-moved w a.whitelist _ key kind rest ds)
        (omega (arith, room, push-length q a.pkt a.addr))
  where
    outbound :
        IsOfDirect w key kind a
        → IsOutbound (record w { whitelist = a.whitelist }) a.pkt a.ihl a.header
    outbound d = record {
      whole = d.outbound.whole;
      header = d.outbound.header;
      not_reply = d.outbound.not_reply;
      not_upstream = d.outbound.not_upstream;
      public = d.outbound.public;
    }
