-- ===== src/Engine/Intercept/Batches.antt =====
-- windivert.go, `processBatch`: a buffer and the packets in it.
use go_pass.Base.{
  ℕ, >>=-assoc, >>=-ext, ◌+◌, ◌≡◌, ◌⊎◌, refl, sym, ap₂, ◌∙◌, false, List, [], ◌∷◌, ◌++◌, Option,
  some, inl, inr, arith, Bool-cases, length, length-append, take, drop, take-append_left,
  drop-append_left, All, Bytes, ltb, ◌>>=◌,
}
use go_pass.Engine.Batch.{WinDivertAddress, packet_len, PacketError, ok, err, panic, Result}
use go_pass.Engine.Batch.Lengths.{packet_len-ne-panic, packet_len-append, packet_len-bounds}
use go_pass.Engine.Batch.Queue.{Packet, buf_of, addrs_of}
use go_pass.Engine.Intercept.{Env, World}
use go_pass.Engine.Intercept.Emit.{QueueOk}
use go_pass.Engine.Intercept.Packets.{handle_packet-Ends}
use go_pass.Engine.Intercept.Dispatch.{
  handle_packet, BatchEnd, split, unsplittable, beyond_buffer, bytes_left, addresses_left,
  process_batch,
}

Result-cases :
    (r : Result ℕ) → (r ≡ panic) ⊎ (((e : PacketError) × (r ≡ err e)) ⊎ ((n : ℕ) × (r ≡ ok n)))
Result-cases panic = inl refl
Result-cases (err e) = inr (inl (e, refl))
Result-cases (ok n) = inr (inr (n, refl))

-- A batch that ended, in a state with a whole queue.
pub record BatchEnds (r : Option (World × BatchEnd)) : Type 0 where
  pub world : World
  pub how : BatchEnd
  pub result : r ≡ some (world, how)
  pub whole : QueueOk world.queue

-- In every state whose send queue, where there is one, holds whole packets, and on every buffer with
-- every list of addresses, `processBatch` ends without an access out of range, in a state whose send
-- queue holds whole packets.
pub process_batch-BatchEnds :
    (envs : ℕ → Env) (p : ℕ) (w : World) (rest : Bytes) (addrs : List WinDivertAddress)
    → QueueOk w.queue
    → BatchEnds (process_batch envs p w rest addrs)
unfolding process_batch
process_batch-BatchEnds envs p w [] [] k = record {
  world = w;
  how = split;
  result = refl;
  whole = k;
}
process_batch-BatchEnds envs p w (b ∷ rest) [] k = record {
  world = w;
  how = bytes_left;
  result = refl;
  whole = k;
}
process_batch-BatchEnds envs p w [] (a ∷ addrs) k = record {
  world = w;
  how = addresses_left;
  result = refl;
  whole = k;
}
process_batch-BatchEnds envs p w (b ∷ rest) (a ∷ addrs) k =
    elim (Result-cases (packet_len (b ∷ rest))) [
      | inl e ↦ absurd (packet_len-ne-panic (b ∷ rest) e)
      | inr (inl (x, e)) ↦ record {
        world = w;
        how = unsplittable;
        result = rw (e, process_batch) refl;
        whole = k;
      }
      | inr (inr (n, e)) ↦ elim (Bool-cases (ltb (length (b ∷ rest)) n)) [
        | inl beyond ↦ record {
          world = w;
          how = beyond_buffer;
          result = rw (e, process_batch, beyond) refl;
          whole = k;
        }
        | inr within ↦
            let one = handle_packet-Ends (envs p) w (take n (b ∷ rest)) a k in
            let others =
              process_batch-BatchEnds envs (p + 1) one.world (drop n (b ∷ rest)) addrs one.whole in
            record {
              world = others.world;
              how = others.how;
              result = rw (e, process_batch, within, one.result) others.result;
              whole = others.whole;
            }
      ]
    ]

-- The packets handled one after the other, each on its own.
abbrev pub handle_each : (ℕ → Env) → ℕ → World → List Packet → Option World
handle_each envs p w [] = some w
handle_each envs p w (x ∷ xs) =
    handle_packet (envs p) w x.0 x.1 >>= λ w'. handle_each envs (p + 1) w' xs

-- A packet whose header gives its own length.
abbrev pub IsWhole : Packet → Type 0
IsWhole x = packet_len x.0 ≡ ok (length x.0)

process_batch_cut :
    (envs : ℕ → Env) (p : ℕ) (w : World) (b : ℕ) (rest : Bytes) (a : WinDivertAddress)
    (addrs : List WinDivertAddress) (n : ℕ)
    → packet_len (b ∷ rest) ≡ ok n
    → ltb (length (b ∷ rest)) n ≡ false
    → process_batch envs p w (b ∷ rest) (a ∷ addrs) ≡ (
        handle_packet (envs p) w (take n (b ∷ rest)) a >>= λ w'.
        process_batch envs (p + 1) w' (drop n (b ∷ rest)) addrs)
unfolding process_batch
process_batch_cut envs p w b rest a addrs n h within = rw (h, process_batch, within) refl

process_batch_step :
    (envs : ℕ → Env) (p : ℕ) (w : World) (x : Packet) (rest : Bytes) (addrs : List WinDivertAddress)
    → IsWhole x
    → process_batch envs p w (x.0 ++ rest) (x.1 ∷ addrs)
      ≡ (handle_packet (envs p) w x.0 x.1 >>= λ w'. process_batch envs (p + 1) w' rest addrs)
process_batch_step envs p w ([], a) rest addrs h = absurd (omega (arith, packet_len-bounds [] 0 h))
process_batch_step envs p w (b ∷ pkt, a) rest addrs h =
    process_batch_cut envs p w b (pkt ++ rest) a addrs (length (b ∷ pkt))
      (packet_len-append (b ∷ pkt) rest h) (ground (arith, length-append (b ∷ pkt) rest))
    ∙ ap₂
        (λ one others.
          handle_packet (envs p) w one a >>= λ w'. process_batch envs (p + 1) w' others addrs)
        (take-append_left (b ∷ pkt) rest) (drop-append_left (b ∷ pkt) rest)

-- On a buffer that is a row of packets, each as long as its own header says, with one address for
-- each, `processBatch` handles exactly these packets, in their order and each with its own address,
-- and ends without an error.
pub process_batch-buf_of :
    (envs : ℕ → Env) (p : ℕ) (w : World) (xs : List Packet)
    → All IsWhole xs
    → process_batch envs p w (buf_of xs) (addrs_of xs)
      ≡ (handle_each envs p w xs >>= λ w'. some (w', split))
process_batch-buf_of envs p w [] h = unfold process_batch in refl
process_batch-buf_of envs p w (x ∷ xs) (h, hs) =
    process_batch_step envs p w x (buf_of xs) (addrs_of xs) h
    ∙ >>=-ext (handle_packet (envs p) w x.0 x.1) _ _
        (λ w'. process_batch-buf_of envs (p + 1) w' xs hs)
    ∙ sym (>>=-assoc (handle_packet (envs p) w x.0 x.1) _ _)
