-- ===== src/MessageQueue/Frame.antt =====
-- What calls on a message queue leave alone: the configuration, and that each outgoing queue holds
-- messages of its own kind.
use cobalt_rs.Common.{
  ℕ, ◌≡◌, refl, sym, subst, ◌∙◌, List, [], ◌∷◌, All, Bool-cases, inl, inr, ◌==◌, ◌&&◌, not,
  contains,
}
use cobalt_rs.Message.{MessageKind, instant, reliable, ordered, Message, messages_from_packet}
use cobalt_rs.MessageQueue.{
  MessageQueue, release, receive_ordered_message, receive_message, receive_messages, receive_packet,
  lose_message, lose_messages, lost_packet, order_is_more_recent,
}
use cobalt_rs.MessageQueue.Sends.{KindsMatch, HasKind}

module _ {F : Type 0} where
  -- The outgoing queues and the configuration are the same.
  pub record Untouched (q q' : MessageQueue F) : Type 0 where
    pub same_config : q'.config ≡ q.config
    pub same_i : q'.i_queue ≡ q.i_queue
    pub same_r : q'.r_queue ≡ q.r_queue
    pub same_o : q'.o_queue ≡ q.o_queue

  Untouched-trans :
      {q q' q'' : MessageQueue F} → Untouched q q' → Untouched q' q'' → Untouched q q''
  Untouched-trans s t = record {
    same_config = t.same_config ∙ s.same_config;
    same_i = t.same_i ∙ s.same_i;
    same_r = t.same_r ∙ s.same_r;
    same_o = t.same_o ∙ s.same_o;
  }

  untouched :
      {q q' : MessageQueue F}
      → q'.config ≡ q.config
      → q'.i_queue ≡ q.i_queue
      → q'.r_queue ≡ q.r_queue
      → q'.o_queue ≡ q.o_queue
      → Untouched q q'
  untouched c i r o = record { same_config = c; same_i = i; same_r = r; same_o = o }

  release-Untouched : (heap : List Message) (q : MessageQueue F) → Untouched q (release heap q)
  unfolding release
  release-Untouched [] q = untouched refl refl refl refl
  release-Untouched (m ∷ heap) q = elim (Bool-cases (m.order == q.remote_order_id)) [
    | inl t ↦ rw t (Untouched-trans (untouched refl refl refl refl) (release-Untouched heap _))
    | inr t ↦ rw t (untouched refl refl refl refl)
  ]

  receive_ordered_message-Untouched :
      (m : Message) (q : MessageQueue F) → Untouched q (receive_ordered_message m q)
  unfolding receive_ordered_message
  receive_ordered_message-Untouched m q = elim (Bool-cases (m.order == q.remote_order_id)) [
    | inl t ↦
        rw t (Untouched-trans (untouched refl refl refl refl) (release-Untouched q.o_recv_heap _))
    | inr t ↦
        elim (Bool-cases
          (order_is_more_recent m.order q.remote_order_id && not (contains m.order q.o_recv_set))) [
            | inl u ↦ rw (t, u) (untouched refl refl refl refl)
            | inr u ↦ rw (t, u) (untouched refl refl refl refl)
          ]
  ]

  receive_message-Untouched :
      (k : MessageKind) (m : Message) (q : MessageQueue F) → Untouched q (receive_message k m q)
  unfolding receive_message
  receive_message-Untouched instant m q = untouched refl refl refl refl
  receive_message-Untouched reliable m q = untouched refl refl refl refl
  receive_message-Untouched ordered m q = receive_ordered_message-Untouched m q

  pub receive_messages-Untouched :
      (ms : List Message) (q : MessageQueue F) → Untouched q (receive_messages ms q)
  unfolding receive_messages
  receive_messages-Untouched [] q = untouched refl refl refl refl
  receive_messages-Untouched (m ∷ ms) q =
      Untouched-trans (receive_message-Untouched m.kind m q) (receive_messages-Untouched ms _)

  pub receive_packet-Untouched :
      (packet : List ℕ) (q : MessageQueue F) → Untouched q (receive_packet packet q)
  unfolding receive_packet
  receive_packet-Untouched packet q = receive_messages-Untouched (messages_from_packet packet) q

  pub Untouched-KindsMatch : {q q' : MessageQueue F} → Untouched q q' → KindsMatch q → KindsMatch q'
  Untouched-KindsMatch u k = record {
    all_i = subst (All (HasKind instant)) (sym u.same_i) k.all_i;
    all_r = subst (All (HasKind reliable)) (sym u.same_r) k.all_r;
    all_o = subst (All (HasKind ordered)) (sym u.same_o) k.all_o;
  }

  -- What is kept where messages come back.
  pub record Keeps (q q' : MessageQueue F) : Type 0 where
    pub keeps_config : q'.config ≡ q.config
    pub keeps_kinds : KindsMatch q → KindsMatch q'

  lose_message-Keeps :
      (k : MessageKind) (m : Message) (q : MessageQueue F)
      → m.kind ≡ k
      → Keeps q (lose_message k m q)
  unfolding lose_message
  lose_message-Keeps instant m q e = record { keeps_config = refl; keeps_kinds = λ k. k }
  lose_message-Keeps reliable m q e = record {
    keeps_config = refl;
    keeps_kinds = λ k. record { all_i = k.all_i; all_r = (e, k.all_r); all_o = k.all_o };
  }
  lose_message-Keeps ordered m q e = record {
    keeps_config = refl;
    keeps_kinds = λ k. record { all_i = k.all_i; all_r = k.all_r; all_o = (e, k.all_o) };
  }

  lose_messages-Keeps : (ms : List Message) (q : MessageQueue F) → Keeps q (lose_messages ms q)
  unfolding lose_messages
  lose_messages-Keeps [] q = record { keeps_config = refl; keeps_kinds = λ k. k }
  lose_messages-Keeps (m ∷ ms) q =
      let one = lose_message-Keeps m.kind m q refl in
      let more = lose_messages-Keeps ms (lose_message m.kind m q) in
      record {
        keeps_config = more.keeps_config ∙ one.keeps_config;
        keeps_kinds = λ k. more.keeps_kinds (one.keeps_kinds k);
      }

  pub lost_packet-Keeps : (packet : List ℕ) (q : MessageQueue F) → Keeps q (lost_packet packet q)
  unfolding lost_packet
  lost_packet-Keeps packet q = lose_messages-Keeps (messages_from_packet packet) q
