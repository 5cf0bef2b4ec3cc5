-- ===== src/MessageQueue/Channel/Preserved.antt =====
-- src/shared/message_queue.rs: every step keeps what holds of two queues.
use cobalt_rs.Common.{
  ℕ, ◌≤◌, ◌<◌, ◌≡◌, refl, sym, subst, ◌∙◌, List, [], ◌∷◌, ◌++◌, append-nil, All, All-append, length,
  length-append, arith,
}
use cobalt_rs.Config.{Config}
use cobalt_rs.Message.{MessageKind, instant, reliable, ordered, Message, messages_from_packet}
use cobalt_rs.MessageQueue.{
  MessageQueue, new, outgoing, received, receive_messages, receive_packet, lose_message,
  lose_messages, lost_packet,
}
use cobalt_rs.MessageQueue.Sends.{HasKind, of_kind}
use cobalt_rs.MessageQueue.Valid.{lose_messages-IsValid}
use cobalt_rs.MessageQueue.Ordering.{Elem}
use cobalt_rs.MessageQueue.Follows.{Follows, receive_messages-append, receive_messages-Follows}
use cobalt_rs.MessageQueue.Sends.{is_kind}
use cobalt_rs.Common.{if◌then◌else◌}
use cobalt_rs.MessageQueue.Channel.{
  Link, Among, note, Step, gives, writes, loses, arrives, takes, Reach, starts, continues,
}
use cobalt_rs.MessageQueue.Channel.Members.{All-Among, of_kind-HasKind, Sound}
use cobalt_rs.MessageQueue.Channel.Invariant.{Inv, start-Inv, gives-Inv, writes-Inv}

module _ {F : Type 0} where
  -- Messages that come back are messages of the packet.
  lose_messages-queued :
      (P : Message → Type 0) (ms : List Message) (q : MessageQueue F)
      → All P (of_kind ordered ms)
      → All P q.o_queue
      → All P (lose_messages ms q).o_queue
        × ((lose_messages ms q).local_order_id ≡ q.local_order_id)
  unfolding lose_messages lose_message
  lose_messages-queued P [] q h k = (k, refl)
  lose_messages-queued P (m ∷ ms) q h k =
      by_kind m.kind h (λ q1 h1 k1. lose_messages-queued P ms q1 h1 k1)
    where
      by_kind :
          (kind : MessageKind)
          → All P (if is_kind ordered kind then m ∷ of_kind ordered ms else of_kind ordered ms)
          → ((q1 : MessageQueue F)
              → All P (of_kind ordered ms)
              → All P q1.o_queue
              → All P (lose_messages ms q1).o_queue
                × ((lose_messages ms q1).local_order_id ≡ q1.local_order_id))
          → All P (lose_messages ms (lose_message kind m q)).o_queue
            × ((lose_messages ms (lose_message kind m q)).local_order_id ≡ q.local_order_id)
      by_kind instant h1 rest = rest q h1 k
      by_kind reliable h1 rest = rest (record q { r_queue = m ∷ q.r_queue }) h1 k
      by_kind ordered h1 rest = rest (record q { o_queue = m ∷ q.o_queue }) h1.1 (h1.0, k)

  loses-Inv :
      (d : Config F) (l : Link F) (payload : List ℕ)
      → Among payload l.packets
      → Inv d l
      → Inv d (record l { sender = lost_packet payload l.sender })
  unfolding lost_packet
  loses-Inv d l payload among v =
      let sound = All-Among (Sound l.sent) payload l.packets v.in_flight among in
      let (queued, id) =
        lose_messages-queued (λ m. Elem m l.sent) (messages_from_packet payload) l.sender sound.1
          v.queued in
      record {
        sender_valid =
            lose_messages-IsValid (messages_from_packet payload) l.sender sound.0 v.sender_valid;
        sent_ids = v.sent_ids;
        next_id = id ∙ v.next_id;
        queued = queued;
        in_flight = v.in_flight;
        arrived_from = v.arrived_from;
        arrived_kind = v.arrived_kind;
        follows = v.follows;
      }

  arrives-Inv :
      (d : Config F) (l : Link F) (payload : List ℕ)
      → Among payload l.packets
      → Inv d l
      → Inv d (record l {
        receiver = receive_packet payload l.receiver;
        arrived = l.arrived ++ of_kind ordered (messages_from_packet payload);
      })
  unfolding receive_packet
  arrives-Inv d l payload among v =
      let ms = messages_from_packet payload in
      record {
        sender_valid = v.sender_valid;
        sent_ids = v.sent_ids;
        next_id = v.next_id;
        queued = v.queued;
        in_flight = v.in_flight;
        arrived_from =
            All-append (λ m. Elem m l.sent) l.arrived (of_kind ordered ms) v.arrived_from
              (All-Among (Sound l.sent) payload l.packets v.in_flight among).1;
        arrived_kind =
            All-append (HasKind ordered) l.arrived (of_kind ordered ms) v.arrived_kind
              (of_kind-HasKind ms);
        follows =
            subst (Follows l.taken (receive_messages ms l.receiver))
              (sym (receive_messages-append l.taken l.arrived (of_kind ordered ms) (new d)))
              (receive_messages-Follows l.taken ms l.receiver (receive_messages l.arrived (new d))
                v.follows);
      }

  takes-Inv :
      (d : Config F) (l : Link F)
      → Inv d l
      → Inv d (record l {
        receiver = (received l.receiver).1;
        taken = l.taken ++ of_kind ordered l.receiver.recv_queue;
      })
  unfolding received
  takes-Inv d l v = record {
    sender_valid = v.sender_valid;
    sent_ids = v.sent_ids;
    next_id = v.next_id;
    queued = v.queued;
    in_flight = v.in_flight;
    arrived_from = v.arrived_from;
    arrived_kind = v.arrived_kind;
    follows = record {
      queue_eq =
          v.follows.queue_eq ∙ sym (append-nil (l.taken ++ of_kind ordered l.receiver.recv_queue));
      remote_eq = v.follows.remote_eq;
      heap_eq = v.follows.heap_eq;
      set_eq = v.follows.set_eq;
      heap_kind = v.follows.heap_kind;
    };
  }

  gives-few :
      (k : MessageKind) (payload : List ℕ) (l : Link F)
      → length (note k (outgoing k payload l.sender) l.sent) ≤ 2048
      → (k ≡ ordered → length l.sent < 2048) × (length l.sent ≤ 2048)
  gives-few instant payload l h = (λ e. cc, h)
  gives-few reliable payload l h = (λ e. cc, h)
  gives-few ordered payload l h =
      let n = length-append l.sent (outgoing ordered payload l.sender ∷ []) in
      (λ e. omega (arith, n), omega (arith, n))

  -- A step keeps the invariant as long as the order ids do not reach the end of the window.
  Step-Inv : (d : Config F) {l l' : Link F} → Step l l' → length l'.sent ≤ 2048 → Inv d l → Inv d l'
  Step-Inv d {l} (gives k payload small) few v =
      gives-Inv d k payload l small (gives-few k payload l few).0 v
  Step-Inv d {l} (writes {q} {packet} ops header available fit run) few v =
      writes-Inv d l q packet ops header available fit run v
  Step-Inv d {l} (loses payload among) few v = loses-Inv d l payload among v
  Step-Inv d {l} (arrives payload among) few v = arrives-Inv d l payload among v
  Step-Inv d {l} takes few v = takes-Inv d l v

  Step-few : {l l' : Link F} → Step l l' → length l'.sent ≤ 2048 → length l.sent ≤ 2048
  Step-few {l} (gives k payload small) few = (gives-few k payload l few).1
  Step-few (writes ops header available fit run) few = few
  Step-few (loses payload among) few = few
  Step-few (arrives payload among) few = few
  Step-few takes few = few

  pub Reach-Inv : {c d : Config F} {l : Link F} → Reach c d l → length l.sent ≤ 2048 → Inv d l
  Reach-Inv {c} {d} starts few = start-Inv c d
  Reach-Inv {c} {d} (continues reach step) few =
      Step-Inv d step few (Reach-Inv reach (Step-few step few))
