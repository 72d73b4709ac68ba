-- ===== src/Engine/Intercept/Emit.antt =====
-- windivert.go: what `sendPass` and `flushQueue` do to the send queue.
use go_pass.Base.{
  ◌+◌, ◌≤◌, ◌≡◌, refl, Bool, true, false, List, [], ◌∷◌, ◌++◌, Option, none, some, inl, inr, arith,
  Bool-cases, length, Bytes, ◌==◌,
}
use go_pass.Engine.Batch.{
  WinDivertAddress, SendQueue, push, reset, count, would_overflow, recv_buf_size, send_batch,
  DriverCall,
}
use go_pass.Engine.Batch.Queue.{
  Packet, Holds, send_batch_lem, push-Holds, reset-Holds, sends, sends_ex,
}
use go_pass.Engine.Intercept.{Env, World, flush_queue, enqueue, send_pass}

-- The queue, where there is one, holds whole packets.
abbrev pub QueueOk : Option SendQueue → Type 0
QueueOk none = Unit {0}
QueueOk (some q) = (ps : List Packet) × Holds q ps

-- A step that ended, in a world with a whole queue.
abbrev pub Fine : Option World → Type 0
Fine none = ⊥
Fine (some w) = QueueOk w.queue

-- With room in the queue, a passed packet is queued as it is and nothing else happens.
pub send_pass_queued :
    (env : Env) (w : World) (q : SendQueue) (pkt : Bytes) (addr : WinDivertAddress)
    → w.queue ≡ some q
    → length q.buf + length pkt ≤ recv_buf_size
    → send_pass env w pkt addr ≡ some (record w { queue = some (push q pkt addr) })
unfolding send_pass would_overflow
send_pass_queued env w q pkt addr e room = ground arith

push_ok :
    (q : SendQueue) (pkt : Bytes) (addr : WinDivertAddress)
    → QueueOk (some q)
    → QueueOk (some (push q pkt addr))
push_ok q [] addr h = unfold push in h
push_ok q (b ∷ pkt) addr (ps, h) =
    (ps ++ (b ∷ pkt, addr) ∷ [], push-Holds q ps (b ∷ pkt) addr h (omega arith))

abbrev pushed : Bytes → WinDivertAddress → Option SendQueue → Option SendQueue
pushed pkt addr none = none
pushed pkt addr (some q) = some (push q pkt addr)

pushed_ok :
    (o : Option SendQueue) (pkt : Bytes) (addr : WinDivertAddress)
    → QueueOk o
    → QueueOk (pushed pkt addr o)
pushed_ok none pkt addr h = tt
pushed_ok (some q) pkt addr h = push_ok q pkt addr h

queue-enqueue :
    (w : World) (pkt : Bytes) (addr : WinDivertAddress)
    → (enqueue w pkt addr).queue ≡ pushed pkt addr w.queue
queue-enqueue w pkt addr = ground arith

pub enqueue_ok :
    (w : World) (pkt : Bytes) (addr : WinDivertAddress)
    → QueueOk w.queue
    → QueueOk (enqueue w pkt addr).queue
enqueue_ok w pkt addr h = rw (queue-enqueue w pkt addr) (pushed_ok w.queue pkt addr h)

-- What `SendBatch` returns for a whole queue.
send_batch_ok :
    (has_send_ex : Bool) (accepts : DriverCall → Bool) (q : SendQueue)
    → QueueOk (some q)
    → (r : List DriverCall × Bool) × (send_batch has_send_ex accepts q ≡ some r)
send_batch_ok true accepts q (ps, h) = (sends_ex accepts ps, (send_batch_lem accepts q ps h).0)
send_batch_ok false accepts q (ps, h) = (sends accepts ps, (send_batch_lem accepts q ps h).1)

-- A step that ends in a world with a whole queue.
pub record Ends (r : Option World) : Type 0 where
  pub world : World
  pub result : r ≡ some world
  pub whole : QueueOk world.queue

pub ends : (w : World) → QueueOk w.queue → Ends (some w)
ends w h = record { world = w; result = refl; whole = h }

-- The queue, where there is one, holds nothing.
abbrev pub QueueEmpty : Option SendQueue → Type 0
QueueEmpty none = Unit {0}
QueueEmpty (some q) = Holds q []

pub QueueEmpty-QueueOk : (o : Option SendQueue) → QueueEmpty o → QueueOk o
QueueEmpty-QueueOk none h = tt
QueueEmpty-QueueOk (some q) h = ([], h)

-- A step that ends in a world with nothing left in the queue.
pub record Empties (r : Option World) : Type 0 where
  pub world : World
  pub result : r ≡ some world
  pub empty : QueueEmpty world.queue

count-zero : (q : SendQueue) (ps : List Packet) → Holds q ps → (count q == 0) ≡ true → Holds q []
unfolding count
count-zero q [] h e = h
count-zero q (p ∷ ps) h e = absurd (ground (arith, h.lens_are))

pub flush_queue-Empties : (env : Env) (w : World) → QueueOk w.queue → Empties (flush_queue env w)
flush_queue-Empties env w h = go w.queue refl h
  where
    go : (o : Option SendQueue) → w.queue ≡ o → QueueOk o → Empties (flush_queue env w)
    go none e k = record { world = w; result = unfold flush_queue in ground arith; empty = rw e tt }
    go (some q) e (ps, k) = elim (Bool-cases (count q == 0)) [
      | inl nothing ↦ record {
        world = w;
        result = unfold flush_queue in ground arith;
        empty = rw e (count-zero q ps k nothing);
      }
      | inr full ↦ elim (Bool-cases w.handle) [
        | inr closed ↦ record {
          world = record w { queue = some (reset q) };
          result = unfold flush_queue in ground arith;
          empty = reset-Holds q;
        }
        | inl ready ↦
            let (sent, f) = send_batch_ok env.has_send_ex env.accepts q (ps, k) in
            record {
              world = record w { queue = some (reset q); wire = w.wire ++ sent.0 };
              result = unfold flush_queue in ground arith;
              empty = reset-Holds q;
            }
      ]
    ]

pub flush_queue-Ends : (env : Env) (w : World) → QueueOk w.queue → Ends (flush_queue env w)
flush_queue-Ends env w h =
    let r = flush_queue-Empties env w h in
    record { world = r.world; result = r.result; whole = QueueEmpty-QueueOk r.world.queue r.empty }
