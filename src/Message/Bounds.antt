-- ===== src/Message/Bounds.antt =====
-- What the parser makes of an arbitrary packet.
use cobalt_rs.Common.{
  ℕ, zero, suc, ◌^◌, ◌≤◌, ◌<◌, List, [], ◌∷◌, Option, none, some, bit_and, arith, length, take,
  drop, All, length-append, length-drop, length-take,
}
use cobalt_rs.Message.{
  Message, MessageKind, serialize, serialize_all, header_size, header_order, kind_from_code,
  push_message, messages_loop, messages_from_packet, max_order_id,
}
use cobalt_rs.Message.Header.{header_order-lt, header_size-lt}

-- The fields fit their widths, and there are no more bytes than `size` says.
pub record IsInRange (m : Message) : Type 0 where
  pub order_lt : m.order < max_order_id
  pub size_lt : m.size < 2 ^ 16
  pub bytes_le : length m.bytes ≤ m.size

abbrev IsByte : ℕ → Type 0
IsByte b = b < 256

All-drop : (n : ℕ) (bs : List ℕ) → All IsByte bs → All IsByte (drop n bs)
All-drop zero bs h = h
All-drop (suc n) [] h = h
All-drop (suc n) (b ∷ bs) h = All-drop n bs h.1

push_message-IsInRange :
    (k : Option MessageKind) (order size : ℕ) (rest : List ℕ) (ms : List Message)
    → order < max_order_id
    → size < 2 ^ 16
    → All IsInRange ms
    → All IsInRange (push_message k order size rest ms)
unfolding push_message
push_message-IsInRange none order size rest ms h k w = w
push_message-IsInRange (some kind) order size rest ms h k w =
    (record { order_lt = h; size_lt = k; bytes_le = omega (arith, length-take size rest) }, w)

length-push_message :
    (k : Option MessageKind) (order size : ℕ) (rest : List ℕ) (ms : List Message)
    → length (serialize_all ms) ≤ length (drop size rest)
    → length (serialize_all (push_message k order size rest ms))
      ≤ suc (suc (suc (suc (length rest))))
unfolding push_message serialize
length-push_message none order size rest ms h = omega (arith, length-drop size rest)
length-push_message (some kind) order size rest ms h = omega (
  arith,
  length-append (take size rest) (serialize_all ms),
  length-take size rest,
  length-drop size rest,
)

messages_loop-IsInRange :
    (fuel : ℕ) (packet : List ℕ) → All IsByte packet → All IsInRange (messages_loop fuel packet)
unfolding messages_loop
messages_loop-IsInRange (suc fuel) (b0 ∷ b1 ∷ b2 ∷ b3 ∷ rest) h =
    push_message-IsInRange (kind_from_code (bit_and b0 0x0F)) (header_order b0 b1)
      (header_size b2 b3) rest _ (header_order-lt b0 b1 h.0 h.1.0)
      (header_size-lt b2 b3 h.1.1.0 h.1.1.1.0)
      (messages_loop-IsInRange fuel (drop (header_size b2 b3) rest)
        (All-drop (header_size b2 b3) rest h.1.1.1.1))
messages_loop-IsInRange _ _ h = tt

length-messages_loop :
    (fuel : ℕ) (packet : List ℕ)
    → length (serialize_all (messages_loop fuel packet)) ≤ length packet
unfolding messages_loop
length-messages_loop (suc fuel) (b0 ∷ b1 ∷ b2 ∷ b3 ∷ rest) =
    length-push_message (kind_from_code (bit_and b0 0x0F)) (header_order b0 b1) (header_size b2 b3)
      rest _ (length-messages_loop fuel (drop (header_size b2 b3) rest))
length-messages_loop _ _ = omega arith

-- Of any packet of bytes the parser makes messages whose order id, size and number of bytes are in
-- range, and which serialized again take no more bytes than the packet has.
pub messages_from_packet_bounds :
    (packet : List ℕ)
    → All IsByte packet
    → All IsInRange (messages_from_packet packet)
      × (length (serialize_all (messages_from_packet packet)) ≤ length packet)
unfolding messages_from_packet
messages_from_packet_bounds packet h =
    (messages_loop-IsInRange (length packet) packet h, length-messages_loop (length packet) packet)
