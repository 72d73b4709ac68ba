-- ===== src/Engine/Intercept/Safe.antt =====
-- windivert.go: `sendPass` and `calcAndSend` on every packet, and how ends of steps compose.
use go_pass.Base.{
  ◌≡◌, ◌⊎◌, Bool, true, false, Option, none, some, inl, inr, arith, Bool-cases, Option-cases,
  if◌then◌else◌, length, Bytes, ◌==◌, ◌>>=◌,
}
use go_pass.Engine.Batch.{WinDivertAddress, SendQueue, would_overflow}
use go_pass.Engine.Intercept.{Env, World, send_one, flush_queue, enqueue, send_pass, calc_and_send}
use go_pass.Engine.Intercept.Emit.{QueueOk, Ends, ends, enqueue_ok, flush_queue-Ends}

-- A step that ends, followed by one that ends.
pub Ends->>= :
    (r : Option World) (f : World → Option World)
    → Ends r
    → ((w : World) → QueueOk w.queue → Ends (f w))
    → Ends (r >>= f)
Ends->>= r f e k = rw e.result (k e.world e.whole)

-- A branch ends if both of its sides do.
pub Ends-if : (b : Bool) (x y : Option World) → Ends x → Ends y → Ends (if b then x else y)
Ends-if true x y e f = e
Ends-if false x y e f = f

QueueOk-if :
    (b : Bool) (x y : World)
    → QueueOk x.queue
    → QueueOk y.queue
    → QueueOk (if b then x else y).queue
QueueOk-if true x y e f = e
QueueOk-if false x y e f = f

send_one_ok :
    (env : Env) (w : World) (pkt : Bytes) (addr : WinDivertAddress)
    → QueueOk w.queue
    → QueueOk (send_one env w pkt addr).0.queue
unfolding send_one
send_one_ok env w pkt addr h = elim (Bool-cases (length pkt == 0)) [
  | inl e ↦ rw e h
  | inr e ↦ rw e h
]

send_pass-queue :
    (env : Env) (w : World) (pkt : Bytes) (addr : WinDivertAddress) (q : SendQueue)
    → w.queue ≡ some q
    → send_pass env w pkt addr ≡ (
        if would_overflow q (length pkt)
        then (flush_queue env w >>= λ flushed. some (enqueue flushed pkt addr))
        else some (enqueue w pkt addr))
unfolding send_pass
send_pass-queue env w pkt addr q e = ground arith

send_pass-direct :
    (env : Env) (w : World) (pkt : Bytes) (addr : WinDivertAddress)
    → w.queue ≡ none
    → send_pass env w pkt addr ≡ some (if w.handle then (send_one env w pkt addr).0 else w)
unfolding send_pass
send_pass-direct env w pkt addr e = ground arith

pub send_pass-Ends :
    (env : Env) (w : World) (pkt : Bytes) (addr : WinDivertAddress)
    → QueueOk w.queue
    → Ends (send_pass env w pkt addr)
send_pass-Ends env w pkt addr h = elim (Option-cases w.queue) [
  | inl e ↦
      rw (send_pass-direct env w pkt addr e)
        (ends _ (QueueOk-if w.handle _ _ (send_one_ok env w pkt addr h) h))
  | inr (q, e) ↦ rw (send_pass-queue env w pkt addr q e) (
      Ends-if (would_overflow q (length pkt)) _ _
        (Ends->>= _ _ (flush_queue-Ends env w h) (λ v k. ends _ (enqueue_ok v pkt addr k)))
        (ends _ (enqueue_ok w pkt addr h)))
]

-- The three ways in which `calcAndSend` ends.
calc_and_send-cases :
    (env : Env) (w : World) (pkt : Bytes) (addr : WinDivertAddress)
    → (calc_and_send env w pkt addr ≡ (w, false))
      ⊎ ((p : Bytes) × (a : WinDivertAddress) × ((calc_and_send env w pkt addr ≡ send_one env w p a)
            ⊎ (calc_and_send env w pkt addr ≡ (enqueue w p a, true))))
unfolding calc_and_send
calc_and_send-cases env w pkt addr = elim (Option-cases (env.calc_checksums pkt addr)) [
  | inl f ↦ inl (ground arith)
  | inr ((p, a), f) ↦ elim (Bool-cases w.handle) [
    | inr e ↦ inl (ground arith)
    | inl e ↦ elim (Option-cases w.queue) [
      | inl g ↦ inr (p, a, inl (ground arith))
      | inr (q, g) ↦ inr (p, a, inr (ground arith))
    ]
  ]
]

pub calc_and_send_ok :
    (env : Env) (w : World) (pkt : Bytes) (addr : WinDivertAddress)
    → QueueOk w.queue
    → QueueOk (calc_and_send env w pkt addr).0.queue
calc_and_send_ok env w pkt addr h = elim (calc_and_send-cases env w pkt addr) [
  | inl e ↦ rw e h
  | inr (p, a, inl e) ↦ rw e (send_one_ok env w p a h)
  | inr (p, a, inr e) ↦ rw e (enqueue_ok w p a h)
]
