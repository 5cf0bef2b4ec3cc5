-- ===== src/MessageQueue/Channel.antt =====
-- src/shared/message_queue.rs: two queues and what is between them. Packets that were written can
-- arrive in any order, any number of times or never, and each can be taken for lost.
pub mod Members
pub mod Invariant
pub mod Preserved
pub mod Fifo
use cobalt_rs.Common.{
  ℕ, zero, suc, ◌+◌, ◌≤◌, ◌<◌, ◌^◌, ◌≡◌, refl, sym, ap, ap₂, subst, ◌∙◌, ◌⊎◌, inl, inr, List, [],
  ◌∷◌, ◌++◌, append_assoc, append-nil, All, All-map, All-append, All-append_left, All-append_right,
  length, length-append, drop, drop-append_exact, take, contains, arith, done, done-injective,
  false,
}
use cobalt_rs.Config.{Config, FloatOps}
use cobalt_rs.Message.{
  MessageKind, instant, reliable, ordered, Message, IsWellFormed, serialize_all,
  messages_from_packet,
}
use cobalt_rs.Message.RoundTrip.{messages_from_packet-serialize_all}
use cobalt_rs.MessageQueue.{
  MessageQueue, new, next_order_id, outgoing, send, received, receive_messages, receive_packet,
  lose_message, lose_messages, lost_packet, send_packet,
}
use cobalt_rs.MessageQueue.Heap.{orders}
use cobalt_rs.MessageQueue.Sends.{HasKind, of_kind, of_kind-append, Sends}
use cobalt_rs.MessageQueue.Sending.{QuotasFit, send_packet_lem}
use cobalt_rs.MessageQueue.Delivery.{Sends-IsWellFormed}
use cobalt_rs.MessageQueue.Valid.{
  IsValid, new-IsValid, send-IsValid, lose_messages-IsValid, Sends-IsValid, IsValid-KindsMatch,
  IsValid-WellFormed,
}
use cobalt_rs.MessageQueue.Ordering.{
  count_up, Elem, InWindow, next_order_id_lem, orders-snoc, HandsOver, receive_messages_in_order,
}
use cobalt_rs.MessageQueue.Follows.{Follows, receive_messages-append, receive_messages-Follows}

-- The queues of both ends. The other fields are no part of a queue: the messages that were given to
-- `send` as ordered ones, the payloads that were written, the ordered messages that have arrived, and
-- those that were taken from the receiver.
pub record Link (F : Type 0) : Type 0 where
  pub sender : MessageQueue F
  pub receiver : MessageQueue F
  pub sent : List Message
  pub packets : List (List ℕ)
  pub arrived : List Message
  pub taken : List Message

abbrev pub Among : List ℕ → List (List ℕ) → Type 0
Among p [] = ⊥
Among p (x ∷ xs) = (p ≡ x) ⊎ Among p xs

abbrev pub note : MessageKind → Message → List Message → List Message
note ordered m ms = ms ++ m ∷ []
note _ m ms = ms

module _ {F : Type 0} where
  pub data Step : Link F → Link F → Type 0 where
    gives :
        {l : Link F} (k : MessageKind) (payload : List ℕ)
        → length payload < 2 ^ 16
        → Step l (record l {
          sender = send k payload l.sender;
          sent = note k (outgoing k payload l.sender) l.sent;
        })
    writes :
        {l : Link F} {q : MessageQueue F} {packet : List ℕ} (ops : FloatOps F) (header : List ℕ)
        (available : ℕ)
        → QuotasFit ops l.sender available
        → send_packet ops l.sender header available ≡ done (q, packet)
        → Step l (record l { sender = q; packets = drop (length header) packet ∷ l.packets })
    loses :
        {l : Link F} (payload : List ℕ)
        → Among payload l.packets
        → Step l (record l { sender = lost_packet payload l.sender })
    arrives :
        {l : Link F} (payload : List ℕ)
        → Among payload l.packets
        → Step l (record l {
          receiver = receive_packet payload l.receiver;
          arrived = l.arrived ++ of_kind ordered (messages_from_packet payload);
        })
    takes :
        {l : Link F}
        → Step l (record l {
          receiver = (received l.receiver).1;
          taken = l.taken ++ of_kind ordered l.receiver.recv_queue;
        })

  abbrev pub start : Config F → Config F → Link F
  start c d = record {
    sender = new c;
    receiver = new d;
    sent = [];
    packets = [];
    arrived = [];
    taken = [];
  }

  -- The links that two new queues become.
  pub data Reach (c d : Config F) : Link F → Type 0 where
    starts : Reach c d (start c d)
    continues : {l l' : Link F} → Reach c d l → Step l l' → Reach c d l'
