-- ===== src/Connection/Delivery/Receipt.antt =====
-- src/shared/connection.rs: what `receive_packet` makes of a packet that the connection takes.
use cobalt_rs.Common.{
  ℕ, ◌≤◌, ◌<◌, ◌≡◌, refl, sym, ap, subst, ◌∙◌, ◌⊎◌, inl, inr, List, Bool, true, false, ◌&&◌, ◌==◌,
  ltb, length, drop, arith, Bool-cases, done, returns, done-injective,
}
use cobalt_rs.Message.{Message, messages_from_packet}
use cobalt_rs.MessageQueue
use cobalt_rs.MessageQueue.{MessageQueue, receive_messages}
use cobalt_rs.MessageQueue.Inbox.{inbox, inbox-receive_messages, inbox-lost_packet}
use cobalt_rs.Sequence.{seq_is_more_recent, u32_from_bytes}
use cobalt_rs.Traits.{Clock, Env}
use cobalt_rs.Connection.{
  Connection, ConnectionState, connecting, closing, packet_header_size, has_protocol_header,
  byte_at, push_event,
}
use cobalt_rs.Connection.Receive.{
  has_closure_data, receive_in_state, update_receive_state, accept_packet, receive_payload,
  receive_packet, check_all_sent, lose_payload,
}
use cobalt_rs.Connection.Steady.{Steady, check_all_sent-Steady}
use cobalt_rs.Connection.Invariant.{IsValid}
use cobalt_rs.Connection.Invariant.Accept.{accept_packet-Accepted, receive_in_state-Kept, Kept}
use cobalt_rs.Connection.Delivery.Modifier.{changed}
use cobalt_rs.Connection.Waiting.{keep_if, waits, accept_packet-waits}
use cobalt_rs.Connection.Invariant.{Pending}
use cobalt_rs.Connection.Invariant.Write.{number_at}
use cobalt_rs.Sequence.{seq_was_acked}
use cobalt_rs.Common.{All, ap₂}

module _ {F R M A : Type 0} where
  -- What a connection has received, the modifier, and the last sequence number of the peer.
  abbrev heard : Connection F R M A → (List Message × ℕ × List Message × List ℕ) × M × ℕ
  heard c = (inbox c.message_queue, c.packet_modifier, c.remote_seq_number)

  heard-Steady : Steady heard
  unfolding lose_payload push_event
  heard-Steady = record {
    on_ack = λ c n t. refl;
    on_loss = λ c n. refl;
    on_return = λ c packet.
        ap (λ i. (i, c.packet_modifier, c.remote_seq_number))
          (inbox-lost_packet (drop packet_header_size packet) c.message_queue);
  }

  accept_packet-inbox :
      (e : Env F R M) (packet : List ℕ) (now : ℕ) (c : Connection F R M A) {c' : Connection F R M A}
      → accept_packet e packet now c ≡ done c'
      → (inbox c'.message_queue
          ≡ inbox (
              MessageQueue.receive_packet
                (changed
                  (e.modifier.incoming c.packet_modifier (drop packet_header_size packet)).0
                  (drop packet_header_size packet))
                c.message_queue))
        × (c'.remote_seq_number ≡ byte_at packet 8)
  unfolding accept_packet receive_payload MessageQueue.receive_packet
  accept_packet-inbox e packet now c {c'} run =
      let c1 : Connection F R M A = record c {
        last_receive_time = now;
        remote_seq_number = byte_at packet 8;
      } in
      let bits =
        u32_from_bytes (byte_at packet 10) (byte_at packet 11) (byte_at packet 12)
          (byte_at packet 13) in
      let ((sent, c2), run1, last) =
        returns (check_all_sent e (byte_at packet 9) bits c.sent_ack_queue c1) run in
      let same =
        check_all_sent-Steady heard heard-Steady e (byte_at packet 9) bits c.sent_ack_queue c1
          run1 in
      let payload = drop packet_header_size packet in
      subst
        (λ (x : Connection F R M A).
          (inbox x.message_queue
            ≡ inbox (
                MessageQueue.receive_packet
                  (changed (e.modifier.incoming c.packet_modifier payload).0 payload)
                  c.message_queue))
          × (x.remote_seq_number ≡ byte_at packet 8))
        (done-injective last)
        (
          inbox-receive_messages
                (messages_from_packet
                  (changed (e.modifier.incoming c2.packet_modifier payload).0 payload))
                c.message_queue c2.message_queue (ap (λ h. h.0) same)
              ∙ ap
                  (λ h. inbox (
                    MessageQueue.receive_packet
                      (changed (e.modifier.incoming h.1 payload).0 payload) c.message_queue))
                  same,
          ap (λ h. h.2) same,
        )

  -- A connection that takes a packet with these first sequence numbers: it waits for the first
  -- packet or is closing, or it is connected, the packet is more recent than the last one and does
  -- not begin like the payload of a closure packet.
  abbrev pub Takes : ℕ → ℕ → Connection F R M A → Type 0
  Takes seq ack d =
      (d.state ≡ connecting)
      ⊎ ((d.state ≡ closing)
          ⊎ ((d.state ≡ ConnectionState.connected)
              × (seq_is_more_recent seq d.remote_seq_number ≡ true)
              × ((seq == 0 && ack == 128) ≡ false)))

  receive_in_state-Takes :
      (packet : List ℕ) (d : Connection F R M A)
      → Takes (byte_at packet 8) (byte_at packet 9) d
      → ((receive_in_state d.state packet d).1 ≡ true)
        × ((receive_in_state d.state packet d).0.packet_modifier ≡ d.packet_modifier)
        × ((receive_in_state d.state packet d).0.sent_ack_queue ≡ d.sent_ack_queue)
  unfolding receive_in_state push_event
  receive_in_state-Takes packet d (inl w) = rw (w, receive_in_state) (refl, refl, refl)
  receive_in_state-Takes packet d (inr (inl w)) = rw (w, receive_in_state) (refl, refl, refl)
  receive_in_state-Takes packet d (inr (inr (w, recent, other))) =
      let no_closure : has_closure_data packet ≡ false = unlike packet other in
      rw (w, receive_in_state, no_closure) (recent, refl, refl)
    where
      unlike :
          (packet : List ℕ)
          → (byte_at packet 8 == 0 && byte_at packet 9 == 128) ≡ false
          → has_closure_data packet ≡ false
      unlike packet h = elim (Bool-cases (byte_at packet 8 == 0)) [
        | inl t ↦ ground arith
        | inr t ↦ ground arith
      ]

  -- What a packet says of each packet that waits.
  abbrev pub Told : List ℕ → (ℕ → Bool) → Connection F R M A → Type 0
  Told packet acked d =
      All (λ p. seq_was_acked p.seq (byte_at packet 9) (number_at packet 10) ≡ done (acked p.seq))
        d.sent_ack_queue

  -- What comes of a packet that is taken.
  pub takes :
      (e : Env F R M) (packet : List ℕ) (before : ℕ) (clock : Clock) (d : Connection F R M A)
      → packet_header_size ≤ length packet
      → has_protocol_header d.config packet ≡ true
      → byte_at packet 8 < 256
      → byte_at packet 9 < 256
      → Takes (byte_at packet 8) (byte_at packet 9) d
      → 0 < d.config.send_rate
      → before ≤ clock 0
      → IsValid before d
      → (d' : Connection F R M A) × (receive_packet e packet clock d ≡ done (d', true))
        × (inbox d'.message_queue
            ≡ inbox (
                MessageQueue.receive_packet
                  (changed
                    (e.modifier.incoming d.packet_modifier (drop packet_header_size packet)).0
                    (drop packet_header_size packet))
                  d.message_queue))
        × (d'.remote_seq_number ≡ byte_at packet 8)
        × IsValid (clock 0) d'
        × ((acked : ℕ → Bool)
            → Told packet acked d
            → d'.sent_ack_queue
              ≡ keep_if (waits (clock 0) d.config.packet_drop_threshold acked) d.sent_ack_queue)
  unfolding receive_packet update_receive_state
  takes e packet before clock d long header seq_lt ack_lt may rate later v =
      let d1 = (receive_in_state d.state packet d).0 in
      let enough : ltb (length packet) packet_header_size ≡ false = ground arith in
      let (go, modifier, queue) = receive_in_state-Takes packet d may in
      let kept : Kept d d1 = receive_in_state-Kept d.state packet d in
      let (d2, run, a) =
        accept_packet-Accepted e packet before (clock 0) d1
          (subst (λ x. 0 < x) (sym (ap (λ x. x.send_rate) kept.kept_config)) rate) seq_lt ack_lt
          later (kept.kept_valid before v) in
      let (mine, seq) = accept_packet-inbox e packet (clock 0) d1 run in
      (
        d2,
        rw (enough, header, go, run) refl,
        mine
            ∙ ap
                (λ m. inbox (
                  MessageQueue.receive_packet
                    (changed (e.modifier.incoming m (drop packet_header_size packet)).0
                      (drop packet_header_size packet))
                    d1.message_queue))
                modifier
            ∙ ap
                (λ q. inbox (
                  MessageQueue.receive_packet
                    (changed
                      (e.modifier.incoming d.packet_modifier (drop packet_header_size packet)).0
                      (drop packet_header_size packet))
                    q))
                kept.kept_queue,
        seq,
        a.valid,
        λ acked told.
            accept_packet-waits e packet (clock 0) before acked d1
              (subst (All (Pending before)) (sym queue) v.sent)
              (subst
                (All (λ p.
                  seq_was_acked p.seq (byte_at packet 9) (number_at packet 10)
                  ≡ done (acked p.seq)))
                (sym queue) told)
              run
            ∙ ap₂ (λ t ps. keep_if (waits (clock 0) t acked) ps)
                (ap (λ x. x.packet_drop_threshold) kept.kept_config) queue,
      )
