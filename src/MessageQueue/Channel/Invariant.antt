-- ===== src/MessageQueue/Channel/Invariant.antt =====
-- src/shared/message_queue.rs: what holds of two queues and the packets between them.
use cobalt_rs.Common.{
  ℕ, ◌<◌, ◌^◌, ◌≡◌, refl, sym, ap, subst, ◌∙◌, List, [], ◌∷◌, ◌++◌, All, All-map, All-append,
  All-append_left, All-append_right, length, length-append, drop, drop-append_exact, arith, done,
  done-injective,
}
use cobalt_rs.Config.{Config, FloatOps}
use cobalt_rs.Message.{
  MessageKind, instant, reliable, ordered, IsWellFormed, serialize_all, messages_from_packet,
}
use cobalt_rs.Message.RoundTrip.{messages_from_packet-serialize_all}
use cobalt_rs.MessageQueue.{MessageQueue, new, outgoing, send, receive_messages, send_packet}
use cobalt_rs.MessageQueue.Heap.{orders}
use cobalt_rs.MessageQueue.Sends.{HasKind, of_kind, Sends}
use cobalt_rs.MessageQueue.Sending.{QuotasFit, send_packet_lem}
use cobalt_rs.MessageQueue.Delivery.{Sends-IsWellFormed}
use cobalt_rs.MessageQueue.Valid.{
  IsValid, new-IsValid, send-IsValid, Sends-IsValid, IsValid-KindsMatch, IsValid-WellFormed,
}
use cobalt_rs.MessageQueue.Ordering.{count_up, Elem, next_order_id_lem, orders-snoc}
use cobalt_rs.MessageQueue.Follows.{Follows}
use cobalt_rs.MessageQueue.Channel.{Link, note, start}
use cobalt_rs.MessageQueue.Channel.Members.{Elem-left, Elem-last, Sound, Sound-mono}

module _ {F : Type 0} where
  pub record Inv (d : Config F) (l : Link F) : Type 0 where
    pub sender_valid : IsValid l.sender
    pub sent_ids : orders l.sent ≡ count_up 0 (length l.sent)
    pub next_id : l.sender.local_order_id ≡ length l.sent
    pub queued : All (λ m. Elem m l.sent) l.sender.o_queue
    pub in_flight : All (Sound l.sent) l.packets
    pub arrived_from : All (λ m. Elem m l.sent) l.arrived
    pub arrived_kind : All (HasKind ordered) l.arrived
    pub follows : Follows l.taken l.receiver (receive_messages l.arrived (new d))

  pub start-Inv : (c d : Config F) → Inv d (start c d)
  unfolding new receive_messages
  start-Inv c d = record {
    sender_valid = new-IsValid c;
    sent_ids = refl;
    next_id = refl;
    queued = tt;
    in_flight = tt;
    arrived_from = tt;
    arrived_kind = tt;
    follows = record {
      queue_eq = refl;
      remote_eq = refl;
      heap_eq = refl;
      set_eq = refl;
      heap_kind = tt;
    };
  }

  pub gives-Inv :
      (d : Config F) (k : MessageKind) (payload : List ℕ) (l : Link F)
      → length payload < 2 ^ 16
      → (k ≡ ordered → length l.sent < 2048)
      → Inv d l
      → Inv d (record l {
        sender = send k payload l.sender;
        sent = note k (outgoing k payload l.sender) l.sent;
      })
  unfolding send outgoing
  gives-Inv d instant payload l small few v = record {
    sender_valid = send-IsValid instant payload l.sender small v.sender_valid;
    sent_ids = v.sent_ids;
    next_id = v.next_id;
    queued = v.queued;
    in_flight = v.in_flight;
    arrived_from = v.arrived_from;
    arrived_kind = v.arrived_kind;
    follows = v.follows;
  }
  gives-Inv d reliable payload l small few v = record {
    sender_valid = send-IsValid reliable payload l.sender small v.sender_valid;
    sent_ids = v.sent_ids;
    next_id = v.next_id;
    queued = v.queued;
    in_flight = v.in_flight;
    arrived_from = v.arrived_from;
    arrived_kind = v.arrived_kind;
    follows = v.follows;
  }
  gives-Inv d ordered payload l small few v =
      let m = outgoing ordered payload l.sender in
      record {
        sender_valid = send-IsValid ordered payload l.sender small v.sender_valid;
        sent_ids = orders-snoc 0 l.sent m v.sent_ids (omega (arith, v.next_id));
        next_id = omega (
          arith,
          v.next_id,
          next_order_id_lem l.sender.local_order_id (omega (arith, v.next_id, few refl)),
          length-append l.sent (m ∷ []),
        );
        queued =
            All-append (λ x. Elem x (l.sent ++ m ∷ [])) l.sender.o_queue (m ∷ [])
              (All-map (λ x e. Elem-left x l.sent (m ∷ []) e) l.sender.o_queue v.queued)
              (Elem-last m l.sent, tt);
        in_flight = All-map (λ p h. Sound-mono l.sent m p h) l.packets v.in_flight;
        arrived_from = All-map (λ x e. Elem-left x l.sent (m ∷ []) e) l.arrived v.arrived_from;
        arrived_kind = v.arrived_kind;
        follows = v.follows;
      }

  pub writes-Inv :
      (d : Config F) (l : Link F) (q : MessageQueue F) (packet : List ℕ) (ops : FloatOps F)
      (header : List ℕ) (available : ℕ)
      → QuotasFit ops l.sender available
      → send_packet ops l.sender header available ≡ done (q, packet)
      → Inv d l
      → Inv d (record l { sender = q; packets = drop (length header) packet ∷ l.packets })
  writes-Inv d l q packet ops header available fit run v =
      let (q1, packet1, written, out, run1, s1, within, full) =
        send_packet_lem ops l.sender header available (IsValid-KindsMatch v.sender_valid) fit in
      let same = done-injective (sym run1 ∙ run) in
      let s : Sends l.sender header 0 q packet written out =
        subst (λ r. Sends l.sender header 0 r.0 r.1 written out) same s1 in
      let well = Sends-IsWellFormed out (IsValid-WellFormed v.sender_valid) s in
      let read : messages_from_packet (drop (length header) packet) ≡ out =
        ap (λ t. messages_from_packet (drop (length header) t)) s.appended
        ∙ ap messages_from_packet (drop-append_exact header (serialize_all out))
        ∙ messages_from_packet-serialize_all out well in
      let all_sent = subst (All (λ m. Elem m l.sent)) s.sends_o v.queued in
      record {
        sender_valid = Sends-IsValid out s v.sender_valid;
        sent_ids = v.sent_ids;
        next_id = ap (λ x. x.local_order_id) s.others ∙ v.next_id;
        queued = All-append_right (λ m. Elem m l.sent) (of_kind ordered out) q.o_queue all_sent;
        in_flight = (
          (
            subst (All IsWellFormed) (sym read) well,
            subst (λ ms. All (λ m. Elem m l.sent) (of_kind ordered ms)) (sym read)
                (All-append_left (λ m. Elem m l.sent) (of_kind ordered out) q.o_queue all_sent),
          ),
          v.in_flight,
        );
        arrived_from = v.arrived_from;
        arrived_kind = v.arrived_kind;
        follows = v.follows;
      }
