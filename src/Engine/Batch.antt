-- ===== src/Engine/Batch.antt =====
-- internal/engine/batch.go: the length of a packet in a batch, and the queue of packets to inject.
-- The addresses of windivert.go are records; a driver call is a value, and whether the driver takes
-- it is a parameter.
pub mod Lengths
pub mod Queue
pub mod Examples
use go_pass.Base.{
  ℕ, zero, suc, ◌+◌, ◌-◌, ◌*◌, ◌/◌, Bool, true, false, ◌||◌, List, [], ◌∷◌, ◌++◌, Option, none,
  some, ltb, ◌==◌, if◌then◌else◌, Bytes, be16, get_elem?, length, take, drop,
}

abbrev pub batch_packets : ℕ
batch_packets = 16

abbrev pub max_packet_size : ℕ
max_packet_size = 40 + 0xffff

abbrev pub recv_buf_size : ℕ
recv_buf_size = batch_packets * max_packet_size

pub record WinDivertAddress : Type 0 where
  pub timestamp : ℕ
  pub bits : ℕ
  pub reserved2 : ℕ
  pub if_idx : ℕ
  pub sub_if_idx : ℕ
  pub body : Bytes

pub data PacketError : Type 0 where
  empty_packet short_ipv4 short_ipv6 unknown_version : PacketError
  bad_ipv4_length bad_ipv6_length : ℕ → PacketError

-- `panic` is an index out of range.
pub data Result (A : Type 0) : Type 0 where
  ok : A → Result A
  err : PacketError → Result A
  panic : Result A

abbrev or_panic : {A : Type 0} → Option A → (A → Result ℕ) → Result ℕ
or_panic none f = panic
or_panic (some a) f = f a

packet_len_v4 : Bytes → Result ℕ
packet_len_v4 pkt =
    if ltb (length pkt) 20
    then err short_ipv4
    else or_panic (be16 pkt 2)
        λ n. if ltb n 20 || ltb (length pkt) n then err (bad_ipv4_length n) else ok n

packet_len_v6 : Bytes → Result ℕ
packet_len_v6 pkt =
    if ltb (length pkt) 40
    then err short_ipv6
    else or_panic (be16 pkt 4) λ payload.
      if ltb (40 + payload) 40 || ltb (length pkt) (40 + payload)
      then err (bad_ipv6_length (40 + payload))
      else ok (40 + payload)

unfoldable pub packet_len : Bytes → Result ℕ
unfolding packet_len_v4 packet_len_v6
packet_len pkt =
    if ltb (length pkt) 1
    then err empty_packet
    else or_panic (get_elem? pkt 0) λ first.
      if first / 16 == 4
      then packet_len_v4 pkt
      else if first / 16 == 6
      then packet_len_v6 pkt
      else err unknown_version

-- The capacity of `buf` is `recv_buf_size` from `newSendQueue` on: a batch never outgrows it.
pub record SendQueue : Type 0 where
  pub buf : Bytes
  pub addrs : List WinDivertAddress
  pub lens : List ℕ

unfoldable pub new_send_queue : SendQueue
new_send_queue = record { buf = []; addrs = []; lens = [] }

unfoldable pub push : SendQueue → Bytes → WinDivertAddress → SendQueue
push q pkt addr = if length pkt == 0 then q else record {
  buf = q.buf ++ pkt;
  addrs = q.addrs ++ addr ∷ [];
  lens = q.lens ++ length pkt ∷ [];
}

unfoldable pub would_overflow : SendQueue → ℕ → Bool
would_overflow q n = ltb (recv_buf_size - length q.buf) n

unfoldable pub count : SendQueue → ℕ
count q = length q.lens

unfoldable pub reset : SendQueue → SendQueue
reset q = record { buf = []; addrs = []; lens = [] }

-- `WinDivertSend` with one packet, `WinDivertSendEx` with a batch.
pub data DriverCall : Type 0 where
  send : Bytes → WinDivertAddress → DriverCall
  send_ex : Bytes → List WinDivertAddress → DriverCall

-- The loop of `SendBatch` over the lengths, `rest` being the buffer from `off` on. It yields the
-- calls made and whether all were taken.
unfoldable pub send_each :
    (DriverCall → Bool) → List ℕ → Bytes → List WinDivertAddress → Option (List DriverCall × Bool)
send_each accepts [] rest addrs = some ([], true)
send_each accepts (l ∷ lens) rest [] = none
send_each accepts (l ∷ lens) rest (a ∷ addrs) =
    let this = send (take l rest) a in
    let others = send_each accepts lens (drop l rest) addrs in
    if ltb (length rest) l
    then none
    else if accepts this
    then elim others [ none ↦ none | some (calls, done) ↦ some (this ∷ calls, done) ]
    else some (this ∷ [], false)

-- `SendBatch`; the flag says whether the DLL has `WinDivertSendEx`. `none` is a slice out of range.
unfoldable pub send_batch : Bool → (DriverCall → Bool) → SendQueue → Option (List DriverCall × Bool)
unfolding send_each count
send_batch has_send_ex accepts q =
    if count q == 0
    then some ([], true)
    else if has_send_ex
    then some (send_ex q.buf q.addrs ∷ [], accepts (send_ex q.buf q.addrs))
    else send_each accepts q.lens q.buf q.addrs
