-- ===== src/MessageQueue/Inbox.antt =====
-- src/shared/message_queue.rs: the receiving side of a queue, apart from its sending side.
use cobalt_rs.Common.{
  ℕ, ◌≡◌, refl, ap, ◌∙◌, List, [], ◌∷◌, ◌==◌, Bool-cases, inl, inr, not, ◌&&◌, contains,
}
use cobalt_rs.Message.{MessageKind, instant, reliable, ordered, Message, messages_from_packet}
use cobalt_rs.MessageQueue.{
  MessageQueue, release, receive_ordered_message, receive_message, receive_messages, lose_message,
  lose_messages, lost_packet, order_is_more_recent,
}

module _ {F : Type 0} where
  -- What waits to be taken, the next order id, and the messages that came too early.
  abbrev pub inbox : MessageQueue F → List Message × ℕ × List Message × List ℕ
  inbox q = (q.recv_queue, q.remote_order_id, q.o_recv_heap, q.o_recv_set)

  -- The queue `q` with the sending side of `other`.
  abbrev with_outbox : MessageQueue F → MessageQueue F → MessageQueue F
  with_outbox other q = record other {
    recv_queue = q.recv_queue;
    remote_order_id = q.remote_order_id;
    o_recv_heap = q.o_recv_heap;
    o_recv_set = q.o_recv_set;
  }

  release-with_outbox :
      (other : MessageQueue F) (heap : List Message) (q : MessageQueue F)
      → release heap (with_outbox other q) ≡ with_outbox other (release heap q)
  unfolding release
  release-with_outbox other [] q = refl
  release-with_outbox other (m ∷ heap) q = elim (Bool-cases (m.order == q.remote_order_id)) [
    | inl t ↦ rw (t, release) (release-with_outbox other heap _)
    | inr t ↦ rw (t, release) refl
  ]

  receive_message-with_outbox :
      (other : MessageQueue F) (k : MessageKind) (m : Message) (q : MessageQueue F)
      → receive_message k m (with_outbox other q) ≡ with_outbox other (receive_message k m q)
  unfolding receive_message receive_ordered_message
  receive_message-with_outbox other instant m q = refl
  receive_message-with_outbox other reliable m q = refl
  receive_message-with_outbox other ordered m q = elim (Bool-cases (m.order == q.remote_order_id)) [
    | inl t ↦ rw t (release-with_outbox other q.o_recv_heap _)
    | inr t ↦
        elim (Bool-cases
          (order_is_more_recent m.order q.remote_order_id && not (contains m.order q.o_recv_set))) [
            | inl u ↦ rw (t, u) refl
            | inr u ↦ rw (t, u) refl
          ]
  ]

  receive_messages-with_outbox :
      (other : MessageQueue F) (ms : List Message) (q : MessageQueue F)
      → receive_messages ms (with_outbox other q) ≡ with_outbox other (receive_messages ms q)
  unfolding receive_messages
  receive_messages-with_outbox other [] q = refl
  receive_messages-with_outbox other (m ∷ ms) q =
      ap (receive_messages ms) (receive_message-with_outbox other m.kind m q)
      ∙ receive_messages-with_outbox other ms (receive_message m.kind m q)

  -- What messages do to the receiving side depends on the receiving side only.
  pub inbox-receive_messages :
      (ms : List Message) (q q' : MessageQueue F)
      → inbox q' ≡ inbox q
      → inbox (receive_messages ms q') ≡ inbox (receive_messages ms q)
  inbox-receive_messages ms q q' same =
      ap (λ x. inbox (receive_messages ms x)) split
      ∙ ap inbox (receive_messages-with_outbox q' ms q)
    where
      split : q' ≡ with_outbox q' q
      split =
          ap {B = MessageQueue F}
            (λ i. record q' {
              recv_queue = i.0;
              remote_order_id = i.1;
              o_recv_heap = i.2;
              o_recv_set = i.3;
            })
            same

  inbox-lose_message :
      (k : MessageKind) (m : Message) (q : MessageQueue F) → inbox (lose_message k m q) ≡ inbox q
  unfolding lose_message
  inbox-lose_message instant m q = refl
  inbox-lose_message reliable m q = refl
  inbox-lose_message ordered m q = refl

  inbox-lose_messages :
      (ms : List Message) (q : MessageQueue F) → inbox (lose_messages ms q) ≡ inbox q
  unfolding lose_messages
  inbox-lose_messages [] q = refl
  inbox-lose_messages (m ∷ ms) q =
      inbox-lose_messages ms (lose_message m.kind m q) ∙ inbox-lose_message m.kind m q

  pub inbox-lost_packet :
      (packet : List ℕ) (q : MessageQueue F) → inbox (lost_packet packet q) ≡ inbox q
  unfolding lost_packet
  inbox-lost_packet packet q = inbox-lose_messages (messages_from_packet packet) q
