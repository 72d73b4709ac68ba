-- ===== src/Engine/Intercept/Dispatch.antt =====
-- windivert.go: `handlePacket` and `processBatch`.
use go_pass.Base.{
  ℕ, ◌+◌, ◌*◌, ◌/◌, ◌%◌, ◌||◌, List, [], ◌∷◌, Option, none, some, ltb, ◌==◌, if◌then◌else◌, Bytes,
  ◌>>=◌, get_elem?, length, take, drop,
}
use go_pass.Engine.Batch.{WinDivertAddress, packet_len, ok, err, panic}
use go_pass.Engine.Intercept.{Env, World}
use go_pass.Engine.Intercept.Tcp4.{handle_ipv4_tcp}
use go_pass.Engine.Intercept.Udp4.{handle_ipv4_udp}
use go_pass.Engine.Intercept.Ipv6.{handle_ipv6}

-- The header length in bytes.
abbrev pub ihl_of : ℕ → ℕ
ihl_of first = first % 16 * 4

unfoldable pub handle_protocol : Env → World → Bytes → WinDivertAddress → ℕ → ℕ → Option World
handle_protocol env w pkt addr ihl proto =
    if proto == 17
    then handle_ipv4_udp env w pkt addr ihl
    else if proto == 6
    then if ltb (length pkt) (ihl + 4) then some w else handle_ipv4_tcp env w pkt addr ihl
    else some w

unfoldable pub handle_ipv4 : Env → World → Bytes → WinDivertAddress → ℕ → Option World
unfolding handle_protocol
handle_ipv4 env w pkt addr first =
    if ltb (length pkt) 20
    then some w
    else if ltb (ihl_of first) 20 || ltb (length pkt) (ihl_of first)
    then some w
    else (do proto ← get_elem? pkt 9; handle_protocol env w pkt addr (ihl_of first) proto)

unfoldable pub handle_version : Env → World → Bytes → WinDivertAddress → ℕ → Option World
unfolding handle_ipv4
handle_version env w pkt addr first =
    if first / 16 == 6
    then handle_ipv6 env w pkt addr
    else if first / 16 == 4
    then handle_ipv4 env w pkt addr first
    else some w

unfoldable pub handle_packet : Env → World → Bytes → WinDivertAddress → Option World
unfolding handle_version
handle_packet env w pkt addr =
    if ltb (length pkt) 1
    then some w
    else (do first ← get_elem? pkt 0; handle_version env w pkt addr first)

-- How `processBatch` ends: with no error, or where it stops.
pub data BatchEnd : Type 0 where
  split unsplittable beyond_buffer bytes_left addresses_left : BatchEnd

-- `processBatch`, `rest` being the buffer from the offset on and `p` the number of the packet, by
-- which the surroundings may change.
unfoldable pub process_batch :
    (ℕ → Env) → ℕ → World → Bytes → List WinDivertAddress → Option (World × BatchEnd)
unfolding handle_packet
process_batch envs p w [] [] = some (w, split)
process_batch envs p w (b ∷ rest) [] = some (w, bytes_left)
process_batch envs p w [] (a ∷ addrs) = some (w, addresses_left)
process_batch envs p w (b ∷ rest) (a ∷ addrs) = elim (packet_len (b ∷ rest)) [
  | panic ↦ none
  | err _ ↦ some (w, unsplittable)
  | ok n ↦ if ltb (length (b ∷ rest)) n then some (w, beyond_buffer) else (do
    w' ← handle_packet (envs p) w (take n (b ∷ rest)) a
    process_batch envs (p + 1) w' (drop n (b ∷ rest)) addrs)
]
