-- ===== src/Examples/Queues.antt =====
-- Runs of src/shared/message_queue.rs.
use cobalt_rs.Common.{ℕ, ◌≤◌, ◌<◌, ◌≡◌, refl, List, [], ◌∷◌, All, length, arith, drop, done}
use cobalt_rs.Message.{
  MessageKind, instant, reliable, ordered, Message, IsWellFormed, serialize, serialize_all,
  messages_from_packet,
}
use cobalt_rs.Message.RoundTrip.{messages_from_packet-serialize_all}
use cobalt_rs.Message.Bounds.{messages_from_packet_bounds, IsInRange}
use cobalt_rs.MessageQueue.{
  MessageQueue, new, send, send_packet, receive_messages, lost_packet, quota_bytes,
}
use cobalt_rs.MessageQueue.Sending.{FillsPacket, QuotasFit, send_packet_lem}
use cobalt_rs.MessageQueue.Delivery.{Delivers, send_packet-receive_packet}
use cobalt_rs.MessageQueue.Loss.{BackInQueues, lost_packet_restores}
use cobalt_rs.MessageQueue.Ordering.{DeliversRun, receive_messages_in_order}
use cobalt_rs.MessageQueue.WrapAround.{wrap_around_stalls}
use cobalt_rs.MessageQueue.Valid.{IsValid, IsValid-KindsMatch, IsValid-WellFormed}
use cobalt_rs.MessageQueue.Histories.{starts, sends, writes, loses, Reach-IsValid}
use cobalt_rs.Examples.Values.{thousandths, config}

abbrev message : MessageKind → ℕ → Message
message k id = record { kind = k; order = id; size = 2; bytes = 7 ∷ 8 ∷ [] }

abbrev message-IsWellFormed : (k : MessageKind) (id : ℕ) → id < 4096 → IsWellFormed (message k id)
message-IsWellFormed k id h = record { order_lt = h; size_lt = omega arith; exact = refl }

abbrev pair : List Message
pair = message ordered 3 ∷ message instant 300 ∷ []

messages_from_packet-serialize_all_example : messages_from_packet (serialize_all pair) ≡ pair
messages_from_packet-serialize_all_example = messages_from_packet-serialize_all pair (
  message-IsWellFormed ordered 3 (omega arith),
  (message-IsWellFormed instant 300 (omega arith), tt),
)

serialize_pair : serialize_all pair ≡ 2 ∷ 3 ∷ 0 ∷ 2 ∷ 7 ∷ 8 ∷ 16 ∷ 44 ∷ 0 ∷ 2 ∷ 7 ∷ 8 ∷ []
unfolding serialize
serialize_pair = refl

abbrev packet : List ℕ
packet = 2 ∷ 3 ∷ 0 ∷ 9 ∷ 7 ∷ 8 ∷ []

messages_from_packet_bounds_example :
    All IsInRange (messages_from_packet packet)
    × (length (serialize_all (messages_from_packet packet)) ≤ 6)
messages_from_packet_bounds_example = messages_from_packet_bounds packet (omega arith)

-- The packets of the source's test `test_receive_read_out_of_order`, in one.
abbrev shuffled : List Message
shuffled =
    message ordered 2
    ∷ message ordered 1
    ∷ message ordered 2
    ∷ message ordered 0
    ∷ message ordered 5
    ∷ []

shuffled_arrive :
    (receive_messages shuffled (new config)).recv_queue
    ≡ message ordered 0 ∷ message ordered 1 ∷ message ordered 2 ∷ []
unfolding receive_messages new
shuffled_arrive = refl

receive_messages_in_order_example : DeliversRun (new config) shuffled
unfolding new
receive_messages_in_order_example =
    receive_messages_in_order (new config) shuffled refl refl (omega arith) (omega arith)
      (refl, (refl, (refl, (refl, (refl, tt)))))

abbrev loaded : MessageQueue ℕ
loaded = record {
  config = config;
  local_order_id = 4;
  remote_order_id = 4000;
  i_queue = message instant 4 ∷ [];
  r_queue = message reliable 2 ∷ message reliable 3 ∷ [];
  o_queue = message ordered 3 ∷ [];
  recv_queue = [];
  o_recv_heap = [];
  o_recv_set = [];
}

loaded-IsValid : IsValid loaded
loaded-IsValid = record {
  local_lt = omega arith;
  remote_lt = omega arith;
  fit_i = (record { kind_eq = refl; well = message-IsWellFormed instant 4 (omega arith) }, tt);
  fit_r = (
    record { kind_eq = refl; well = message-IsWellFormed reliable 2 (omega arith) },
    (record { kind_eq = refl; well = message-IsWellFormed reliable 3 (omega arith) }, tt),
  );
  fit_o = (record { kind_eq = refl; well = message-IsWellFormed ordered 3 (omega arith) }, tt);
}

-- 12 bytes for the reliable messages, of which the second comes by the last loop.
loaded_quotas : QuotasFit thousandths loaded 20
unfolding quota_bytes
loaded_quotas = omega arith

send_packet_lem_example : FillsPacket thousandths loaded (9 ∷ []) 20
send_packet_lem_example =
    send_packet_lem thousandths loaded (9 ∷ []) 20 (IsValid-KindsMatch loaded-IsValid) loaded_quotas

send_packet-receive_packet_example : Delivers thousandths loaded (new config) (9 ∷ []) 20
send_packet-receive_packet_example =
    send_packet-receive_packet thousandths loaded (new config) (9 ∷ []) 20
      (IsValid-KindsMatch loaded-IsValid) (IsValid-WellFormed loaded-IsValid) loaded_quotas

lost_packet_restores_example : BackInQueues thousandths loaded (9 ∷ []) 20
lost_packet_restores_example =
    lost_packet_restores thousandths loaded (9 ∷ []) 20 (IsValid-KindsMatch loaded-IsValid)
      (IsValid-WellFormed loaded-IsValid) loaded_quotas

wrap_around_stalls_example :
    (receive_messages
      (message ordered 4001 ∷ message ordered 0 ∷ message ordered 4000 ∷ message ordered 1 ∷ [])
      loaded).recv_queue
    ≡ message ordered 4000 ∷ []
wrap_around_stalls_example =
    wrap_around_stalls loaded (message ordered 4000) (message ordered 4001) (message ordered 0)
      (message ordered 1 ∷ []) refl refl (omega arith) (omega arith) (refl, refl) (refl, refl)
      (refl, refl) ((refl, omega arith), tt)

abbrev said : MessageQueue ℕ
unfolding new send
said = send ordered (7 ∷ 8 ∷ []) (new config)

said_quotas : QuotasFit thousandths said 20
unfolding new send quota_bytes
said_quotas = omega arith

-- The message has left the queue, with a packet of one byte and the message.
abbrev quiet : MessageQueue ℕ
unfolding new
quiet = record (new config) { local_order_id = 1 }

abbrev written : List ℕ
written = 9 ∷ 2 ∷ 0 ∷ 0 ∷ 2 ∷ 7 ∷ 8 ∷ []

said_written : send_packet thousandths said (9 ∷ []) 20 ≡ done (quiet, written)
unfolding new send send_packet
said_written = refl

-- A message is sent in a packet, and the packet is lost.
Reach-IsValid_example : IsValid (lost_packet (drop 1 written) quiet)
unfolding new send
Reach-IsValid_example = Reach-IsValid (
    loses 0 (drop 1 written)
      (writes thousandths (9 ∷ []) 20 (sends ordered (7 ∷ 8 ∷ []) (starts config) (omega arith))
        said_quotas said_written)
      refl)
