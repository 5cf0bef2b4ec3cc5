-- ===== src/MessageQueue/Loss.antt =====
-- What `lost_packet` puts back.
use mathlib.Core.List.Perm
use mathlib.Core.List.{Perm, reverse-append, reverse_perm}
use cobalt_rs.Common.{
  ℕ, ◌≡◌, refl, sym, ap, subst, ◌∙◌, List, [], ◌∷◌, ◌++◌, reverse, All, append_assoc, arith, length,
  drop, done, drop-append_exact,
}
use cobalt_rs.Message.{
  MessageKind, instant, reliable, ordered, Message, IsWellFormed, serialize_all,
}
use cobalt_rs.Message.RoundTrip.{messages_from_packet-serialize_all}
use cobalt_rs.MessageQueue.{MessageQueue, lose_message, lose_messages, lost_packet, send_packet}
use cobalt_rs.Config.{FloatOps}
use cobalt_rs.MessageQueue.Sending.{QuotasFit, send_packet_lem}
use cobalt_rs.MessageQueue.Delivery.{WellFormed, Sends-IsWellFormed}
use cobalt_rs.MessageQueue.Sends.{KindsMatch, Sends, of_kind, of_kind-append}

put_back :
    (k : MessageKind) (ms ns : List Message) {ys zs : List Message} (xs : List Message)
    → ys ≡ reverse (of_kind k ms) ++ xs
    → zs ≡ reverse (of_kind k ns) ++ ys
    → zs ≡ reverse (of_kind k (ms ++ ns)) ++ xs
put_back k ms ns xs p q =
    q
    ∙ ap (◌++◌ (reverse (of_kind k ns))) p
    ∙ sym (append_assoc (reverse (of_kind k ns)) (reverse (of_kind k ms)) xs)
    ∙ ap (λ t. t ++ xs)
        (sym (ap reverse (of_kind-append k ms ns) ∙ reverse-append (of_kind k ms) (of_kind k ns)))

back_perm :
    (k : MessageKind) (ms : List Message) {after before : List Message} (rest : List Message)
    → before ≡ of_kind k ms ++ rest
    → after ≡ reverse (of_kind k ms) ++ rest
    → Perm after before
back_perm k ms {after} {before} rest p q =
    subst (λ t. Perm t before) (sym q)
      (subst (Perm (reverse (of_kind k ms) ++ rest)) (sym p)
        (Perm.append (reverse_perm (of_kind k ms)) (Perm.refl rest)))

module _ {F : Type 0} where
  -- The messages `ms` are back in front of the queues of their kinds, the last one first; instant
  -- messages are gone.
  pub record PutBack (ms : List Message) (q q' : MessageQueue F) : Type 0 where
    pub back_r : q'.r_queue ≡ reverse (of_kind reliable ms) ++ q.r_queue
    pub back_o : q'.o_queue ≡ reverse (of_kind ordered ms) ++ q.o_queue
    pub others : q' ≡ record q { r_queue = q'.r_queue; o_queue = q'.o_queue }

  lose_message-PutBack :
      (k : MessageKind) (m : Message) (q : MessageQueue F)
      → m.kind ≡ k
      → PutBack (m ∷ []) q (lose_message k m q)
  unfolding lose_message
  lose_message-PutBack instant m q e = record {
    back_r = ground (arith, e);
    back_o = ground (arith, e);
    others = refl;
  }
  lose_message-PutBack reliable m q e = record {
    back_r = ground (arith, e);
    back_o = ground (arith, e);
    others = refl;
  }
  lose_message-PutBack ordered m q e = record {
    back_r = ground (arith, e);
    back_o = ground (arith, e);
    others = refl;
  }

  PutBack-trans :
      {q q' q'' : MessageQueue F} (ms ns : List Message)
      → PutBack ms q q'
      → PutBack ns q' q''
      → PutBack (ms ++ ns) q q''
  PutBack-trans {q} {q'} {q''} ms ns s t = record {
    back_r = put_back reliable ms ns q.r_queue s.back_r t.back_r;
    back_o = put_back ordered ms ns q.o_queue s.back_o t.back_o;
    others =
        t.others
        ∙ ap {A = MessageQueue F} {B = MessageQueue F}
            (λ x. record x { r_queue = q''.r_queue; o_queue = q''.o_queue }) s.others;
  }

  pub lose_messages-PutBack :
      (ms : List Message) (q : MessageQueue F) → PutBack ms q (lose_messages ms q)
  unfolding lose_messages
  lose_messages-PutBack [] q = record { back_r = refl; back_o = refl; others = refl }
  lose_messages-PutBack (m ∷ ms) q =
      PutBack-trans (m ∷ []) ms (lose_message-PutBack m.kind m q refl)
        (lose_messages-PutBack ms (lose_message m.kind m q))

  pub lost_packet-PutBack :
      (ms : List Message) (q : MessageQueue F)
      → All IsWellFormed ms
      → PutBack ms q (lost_packet (serialize_all ms) q)
  unfolding lost_packet
  lost_packet-PutBack ms q w =
      subst (λ t. PutBack ms q (lose_messages t q)) (sym (messages_from_packet-serialize_all ms w))
        (lose_messages-PutBack ms q)

  -- A sent packet is lost: the reliable and the ordered messages are back, the instant ones are not.
  restores :
      (q q' : MessageQueue F) {packet packet' : List ℕ} {written : ℕ} (out : List Message)
      → Sends q packet 0 q' packet' written out
      → All IsWellFormed out
      → let q'' = lost_packet (serialize_all out) q' in
        Perm q''.r_queue q.r_queue × Perm q''.o_queue q.o_queue × (q''.i_queue ≡ q'.i_queue)
  restores q q' out s w =
      let b = lost_packet-PutBack out q' w in
      (
        back_perm reliable out q'.r_queue s.sends_r b.back_r,
        back_perm ordered out q'.o_queue s.sends_o b.back_o,
        ap (λ x. x.i_queue) b.others,
      )

  -- What a packet behind a header is, which is sent and found lost.
  abbrev pub BackInQueues : FloatOps F → MessageQueue F → List ℕ → ℕ → Type 0
  BackInQueues ops q header available =
      (q' : MessageQueue F) × (packet : List ℕ) × (send_packet ops q header available
        ≡ done (q', packet))
      × (let q'' = lost_packet (drop (length header) packet) q' in
          Perm q''.r_queue q.r_queue × Perm q''.o_queue q.o_queue × (q''.i_queue ≡ q'.i_queue))

  -- `send_packet` returns, and if what it has written behind a header is then lost, the reliable and
  -- the ordered queue hold the same messages as before it was sent, in some order, and the instant
  -- queue stays as it was after it was sent. The outgoing queues hold well-formed messages of their own
  -- kinds, and the quotas fit in the available bytes.
  pub lost_packet_restores :
      (ops : FloatOps F) (q : MessageQueue F) (header : List ℕ) (available : ℕ)
      → KindsMatch q
      → WellFormed q
      → QuotasFit ops q available
      → BackInQueues ops q header available
  lost_packet_restores ops q header available k w fit =
      let (q', packet, written, out, run, s, within, full) =
        send_packet_lem ops q header available k fit in
      let payload : drop (length header) packet ≡ serialize_all out =
        ap (drop (length header)) s.appended ∙ drop-append_exact header (serialize_all out) in
      (q', packet, run, rw payload (restores q q' out s (Sends-IsWellFormed out w s)))
