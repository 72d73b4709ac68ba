-- ===== src/Engine/Batch/Examples.antt =====
-- batch.go: an IPv4 and an IPv6 packet.
use go_pass.Base.{◌≡◌, refl, Bool, true, false, [], ◌∷◌, some, replicate, Bytes, arith, be16}
use go_pass.Engine.Batch.{
  WinDivertAddress, SendQueue, DriverCall, ok, packet_len, new_send_queue, push, send_batch,
}
use go_pass.Engine.Batch.Queue.{
  Holds, sends, sends_ex, new_send_queue-Holds, push-Holds, send_batch_lem,
}

abbrev pub packet4 : Bytes
packet4 = 0x45 ∷ 0 ∷ 0 ∷ 20 ∷ replicate 16 0

abbrev pub packet6 : Bytes
packet6 = 0x60 ∷ 0 ∷ 0 ∷ 0 ∷ 0 ∷ 2 ∷ replicate 36 0

abbrev pub address0 : WinDivertAddress
address0 = record { timestamp = 0; bits = 0; reserved2 = 0; if_idx = 7; sub_if_idx = 0; body = [] }

pub packet4_whole : packet_len packet4 ≡ ok 20
unfolding packet_len be16
packet4_whole = refl

pub packet6_whole : packet_len packet6 ≡ ok 42
unfolding packet_len be16
packet6_whole = refl

abbrev queue1 : SendQueue
queue1 = push new_send_queue packet4 address0

queue1-Holds : Holds queue1 ((packet4, address0) ∷ [])
queue1-Holds = push-Holds new_send_queue [] packet4 address0 new_send_queue-Holds (omega arith)

abbrev takes_all : DriverCall → Bool
takes_all c = true

send_batch_lem_example :
    (send_batch true takes_all queue1 ≡ some (sends_ex takes_all ((packet4, address0) ∷ [])))
    × (send_batch false takes_all queue1 ≡ some (sends takes_all ((packet4, address0) ∷ [])))
send_batch_lem_example = send_batch_lem takes_all queue1 ((packet4, address0) ∷ []) queue1-Holds
