-- ===== src/Examples/Channels.antt =====
-- Runs of src/shared/message_queue.rs: two queues whose packets arrive in the wrong order.
use cobalt_rs.Common.{
  ℕ, ◌≡◌, refl, inl, inr, List, [], ◌∷◌, take, contains, arith, Outcome, done, panic, stuck, false,
}
use cobalt_rs.Message.{ordered, Message, messages_from_packet}
use cobalt_rs.MessageQueue.{MessageQueue, new, send, send_packet, receive_packet, quota_bytes}
use cobalt_rs.MessageQueue.Heap.{orders}
use cobalt_rs.MessageQueue.Channel.{Link, Reach, starts, continues, gives, writes, arrives}
use cobalt_rs.MessageQueue.Channel.Fifo.{delivered, Reach-in_order}
use cobalt_rs.Examples.Values.{thousandths, config}

abbrev queue_of : Outcome (MessageQueue ℕ × List ℕ) → MessageQueue ℕ
queue_of (done r) = r.0
queue_of panic = new config
queue_of stuck = new config

abbrev packet_of : Outcome (MessageQueue ℕ × List ℕ) → List ℕ
packet_of (done r) = r.1
packet_of panic = []
packet_of stuck = []

-- The messages 65 and 66, each in a packet of its own.
abbrev first_packet : Outcome (MessageQueue ℕ × List ℕ)
first_packet = send_packet thousandths (send ordered (65 ∷ []) (new config)) [] 100

abbrev second_packet : Outcome (MessageQueue ℕ × List ℕ)
second_packet = send_packet thousandths (send ordered (66 ∷ []) (queue_of first_packet)) [] 100

abbrev message : ℕ → ℕ → Message
message id byte = record { kind = ordered; order = id; size = 1; bytes = byte ∷ [] }

abbrev after_three : Link ℕ
after_three = record {
  sender = queue_of second_packet;
  receiver = receive_packet (packet_of first_packet) (
      receive_packet (packet_of first_packet)
        (receive_packet (packet_of second_packet) (new config)));
  sent = message 0 65 ∷ message 1 66 ∷ [];
  packets = packet_of second_packet ∷ packet_of first_packet ∷ [];
  arrived = message 1 66 ∷ message 0 65 ∷ message 0 65 ∷ [];
  taken = [];
}

-- The second packet has arrived, and then the first one, twice.
abbrev swapped : Reach config config after_three
unfolding new send send_packet quota_bytes messages_from_packet
swapped =
    continues
      (continues
        (continues
          (continues
            (continues
              (continues (continues starts (gives ordered (65 ∷ []) (omega arith))) (
                writes {q = queue_of first_packet} {packet = packet_of first_packet} thousandths []
                  100 (omega arith) refl))
              (gives ordered (66 ∷ []) (omega arith)))
            (writes {q = queue_of second_packet} {packet = packet_of second_packet} thousandths []
              100 (omega arith) refl))
          (arrives (packet_of second_packet) (inl refl)))
        (arrives (packet_of first_packet) (inr (inl refl))))
      (arrives (packet_of first_packet) (inr (inl refl)))

Reach-in_order_example :
    (delivered after_three
      ≡ take after_three.receiver.remote_order_id (message 0 65 ∷ message 1 66 ∷ []))
    × (contains after_three.receiver.remote_order_id (orders after_three.arrived) ≡ false)
Reach-in_order_example = Reach-in_order after_three swapped (omega arith)

both_delivered : delivered after_three ≡ message 0 65 ∷ message 1 66 ∷ []
unfolding new send send_packet receive_packet
both_delivered = refl
