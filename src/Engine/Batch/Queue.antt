-- ===== src/Engine/Batch/Queue.antt =====
-- batch.go, `sendQueue`: the three slices stand for a list of packets with their addresses.
use go_pass.Base.{
  ℕ, ◌<◌, ◌≡◌, refl, sym, ap, Bool, true, false, List, [], ◌∷◌, ◌++◌, some, arith, append_assoc,
  append-nil, length, length-append, take-append_left, drop-append_left, Bytes, ◌==◌, if◌then◌else◌,
}
use go_pass.Engine.Batch.{
  WinDivertAddress, SendQueue, new_send_queue, push, reset, count, DriverCall, send, send_ex,
  send_each, send_batch,
}

abbrev pub Packet : Type 0
Packet = Bytes × WinDivertAddress

abbrev pub buf_of : List Packet → Bytes
buf_of [] = []
buf_of (p ∷ ps) = p.0 ++ buf_of ps

abbrev pub addrs_of : List Packet → List WinDivertAddress
addrs_of [] = []
addrs_of (p ∷ ps) = p.1 ∷ addrs_of ps

abbrev pub lens_of : List Packet → List ℕ
lens_of [] = []
lens_of (p ∷ ps) = length p.0 ∷ lens_of ps

-- The queue holds these packets, in this order.
pub record Holds (q : SendQueue) (ps : List Packet) : Type 0 where
  pub buf_is : q.buf ≡ buf_of ps
  pub addrs_are : q.addrs ≡ addrs_of ps
  pub lens_are : q.lens ≡ lens_of ps

pub new_send_queue-Holds : Holds new_send_queue []
unfolding new_send_queue
new_send_queue-Holds = record { buf_is = refl; addrs_are = refl; lens_are = refl }

pub reset-Holds : (q : SendQueue) → Holds (reset q) []
unfolding reset
reset-Holds q = record { buf_is = refl; addrs_are = refl; lens_are = refl }

buf_of-concat : (ps : List Packet) (p : Packet) → buf_of (ps ++ p ∷ []) ≡ buf_of ps ++ p.0
buf_of-concat [] p = append-nil p.0
buf_of-concat (x ∷ ps) p = rw (buf_of-concat ps p) (sym (append_assoc x.0 (buf_of ps) p.0))

addrs_of-concat :
    (ps : List Packet) (p : Packet) → addrs_of (ps ++ p ∷ []) ≡ addrs_of ps ++ p.1 ∷ []
addrs_of-concat [] p = refl
addrs_of-concat (x ∷ ps) p = ap (◌∷◌ x.1) (addrs_of-concat ps p)

lens_of-concat :
    (ps : List Packet) (p : Packet) → lens_of (ps ++ p ∷ []) ≡ lens_of ps ++ length p.0 ∷ []
lens_of-concat [] p = refl
lens_of-concat (x ∷ ps) p = ap (◌∷◌ (length x.0)) (lens_of-concat ps p)

-- On a queue that holds some packets, `push` of a packet that is not empty gives a queue that holds
-- them and then the packet.
pub push-Holds :
    (q : SendQueue) (ps : List Packet) (pkt : Bytes) (addr : WinDivertAddress)
    → Holds q ps
    → 0 < length pkt
    → Holds (push q pkt addr) (ps ++ (pkt, addr) ∷ [])
unfolding push
push-Holds q ps pkt addr h positive = record {
  buf_is = ground (arith, buf_of-concat ps (pkt, addr), h.buf_is);
  addrs_are = ground (arith, addrs_of-concat ps (pkt, addr));
  lens_are = ground (arith, lens_of-concat ps (pkt, addr));
}

-- The packets of a list as calls of `WinDivertSend`, up to the first that the driver refuses.
abbrev pub sends : (DriverCall → Bool) → List Packet → List DriverCall × Bool
sends accepts [] = ([], true)
sends accepts ((pkt, addr) ∷ ps) =
    let rest = sends accepts ps in
    if accepts (send pkt addr)
    then (send pkt addr ∷ rest.0, rest.1)
    else (send pkt addr ∷ [], false)

send_each-sends :
    (accepts : DriverCall → Bool) (ps : List Packet)
    → send_each accepts (lens_of ps) (buf_of ps) (addrs_of ps) ≡ some (sends accepts ps)
unfolding send_each
send_each-sends accepts [] = refl
send_each-sends accepts ((pkt, addr) ∷ ps) = ground (
  arith,
  take-append_left pkt (buf_of ps),
  drop-append_left pkt (buf_of ps),
  length-append pkt (buf_of ps),
  send_each-sends accepts ps,
)

-- The packets of a list as one call of `WinDivertSendEx`.
abbrev pub sends_ex : (DriverCall → Bool) → List Packet → List DriverCall × Bool
sends_ex accepts [] = ([], true)
sends_ex accepts (p ∷ ps) =
    let call = send_ex (buf_of (p ∷ ps)) (addrs_of (p ∷ ps)) in (call ∷ [], accepts call)

abbrev queue_of : List Packet → SendQueue
queue_of ps = record { buf = buf_of ps; addrs = addrs_of ps; lens = lens_of ps }

send_batch_packets_ex :
    (accepts : DriverCall → Bool) (ps : List Packet)
    → send_batch true accepts (queue_of ps) ≡ some (sends_ex accepts ps)
unfolding send_batch
send_batch_packets_ex accepts [] = refl
send_batch_packets_ex accepts (p ∷ ps) = ground arith

send_batch_packets :
    (accepts : DriverCall → Bool) (ps : List Packet)
    → send_batch false accepts (queue_of ps) ≡ some (sends accepts ps)
unfolding send_batch count
send_batch_packets accepts [] = refl
send_batch_packets accepts (p ∷ ps) =
    let positive : (length (lens_of (p ∷ ps)) == 0) ≡ false = ground arith in
    rw positive (send_each-sends accepts (p ∷ ps))

send_batch_of_packets :
    (has_send_ex : Bool) (accepts : DriverCall → Bool) (q : SendQueue) (ps : List Packet)
    → Holds q ps
    → send_batch has_send_ex accepts q ≡ send_batch has_send_ex accepts (queue_of ps)
send_batch_of_packets has_send_ex accepts q ps h =
    ap (send_batch has_send_ex accepts)
      (λ i. record { buf = h.buf_is i; addrs = h.addrs_are i; lens = h.lens_are i })

-- `SendBatch` on a queue that holds some packets hands the driver exactly these packets in order:
-- in one call where the DLL has `WinDivertSendEx`, and else one by one up to the first refusal. It
-- never slices out of range.
pub send_batch_lem :
    (accepts : DriverCall → Bool) (q : SendQueue) (ps : List Packet)
    → Holds q ps
    → (send_batch true accepts q ≡ some (sends_ex accepts ps))
      × (send_batch false accepts q ≡ some (sends accepts ps))
send_batch_lem accepts q ps h =
    rw (send_batch_of_packets true accepts q ps h, send_batch_of_packets false accepts q ps h)
      (send_batch_packets_ex accepts ps, send_batch_packets accepts ps)
