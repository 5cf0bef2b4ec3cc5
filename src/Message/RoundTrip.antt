-- ===== src/Message/RoundTrip.antt =====
-- Packets of messages: the parser reads back what was serialized, and its loop has enough fuel.
use cobalt_rs.Common.{
  ℕ, zero, suc, ◌≤◌, ◌≡◌, refl, ap, ◌∙◌, List, [], ◌∷◌, ◌++◌, arith, length, drop, All,
  length-append, length-drop, take-append_exact, drop-append_exact,
}
use cobalt_rs.Message.{
  Message, serialize, serialize_all, header_size, push_message, messages_loop, messages_from_packet,
  IsWellFormed,
}
use cobalt_rs.Message.Header.{kind-first_byte, order-first_byte, header_size_lem}

-- More fuel than bytes changes nothing.
pub messages_loop_fuel :
    (n m : ℕ) (packet : List ℕ)
    → length packet ≤ n
    → length packet ≤ m
    → messages_loop n packet ≡ messages_loop m packet
unfolding messages_loop
messages_loop_fuel zero zero packet h k = refl
messages_loop_fuel zero (suc m) [] h k = refl
messages_loop_fuel (suc n) zero [] h k = refl
messages_loop_fuel (suc n) (suc m) (b0 ∷ b1 ∷ b2 ∷ b3 ∷ rest) h k = ap (push_message _ _ _ rest) (
    messages_loop_fuel n m (drop (header_size b2 b3) rest)
      (omega (arith, length-drop (header_size b2 b3) rest))
      (omega (arith, length-drop (header_size b2 b3) rest)))
messages_loop_fuel zero m (b ∷ packet) h k = absurd (omega arith)
messages_loop_fuel (suc n) zero (b ∷ packet) h k = absurd (omega arith)
messages_loop_fuel _ _ _ h k = refl

-- One round on a serialized message.
messages_loop_round :
    (fuel : ℕ) (m : Message) (rest : List ℕ)
    → IsWellFormed m
    → messages_loop (suc fuel) (serialize m ++ rest) ≡ m ∷ messages_loop fuel rest
unfolding messages_loop serialize
messages_loop_round fuel m rest w = rw (
  kind-first_byte m.order m.kind w.order_lt,
  order-first_byte m.order m.kind w.order_lt,
  header_size_lem m.size w.size_lt,
  ← w.exact,
  take-append_exact m.bytes rest,
  drop-append_exact m.bytes rest,
)

-- What `messages_from_packet` makes of a packet that starts with serialized messages.
pub messages_from_packet-serialize :
    (m : Message) (rest : List ℕ)
    → IsWellFormed m
    → messages_from_packet (serialize m ++ rest) ≡ m ∷ messages_from_packet rest
unfolding messages_from_packet
messages_from_packet-serialize m rest w =
    messages_loop_fuel _ (suc (length (serialize m ++ rest))) (serialize m ++ rest) (omega arith)
      (omega arith)
    ∙ messages_loop_round _ m rest w
    ∙ ap (◌∷◌ m) (
        messages_loop_fuel _ _ rest (omega (arith, length-append (serialize m) rest)) (omega arith))

-- The parser reads back any sequence of well-formed messages from the packet that holds their
-- serialized forms one after the other.
pub messages_from_packet-serialize_all :
    (ms : List Message) → All IsWellFormed ms → messages_from_packet (serialize_all ms) ≡ ms
messages_from_packet-serialize_all [] w = unfold messages_from_packet messages_loop in refl
messages_from_packet-serialize_all (m ∷ ms) w =
    messages_from_packet-serialize m (serialize_all ms) w.0
    ∙ ap (◌∷◌ m) (messages_from_packet-serialize_all ms w.1)
