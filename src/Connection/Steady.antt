-- ===== src/Connection/Steady.antt =====
-- src/shared/connection.rs: what the loop over the sent packets leaves alone, and `receive_packet`.
use cobalt_rs.Common.{
  checked_div, ℕ, ◌≡◌, refl, sym, ap, ◌∙◌, Bool, true, false, List, [], ◌∷◌, done, ltb, returns,
  done-injective, if◌then◌else◌, Option, none, some, checked_sub,
}
use cobalt_rs.Traits.{Clock, Env}
use cobalt_rs.Common.{Bool-cases, inl, inr, length, drop, ◌>>=◌}
use cobalt_rs.Sequence.{seq_was_acked, u32_from_bytes}
use cobalt_rs.Connection.{
  Connection, ConnectionState, SentPacketAck, PacketState, wrapping_inc, byte_at,
  packet_header_size, has_protocol_header,
}
use cobalt_rs.Connection.Receive.{
  ack_packet, lose_payload, check_sent, check_all_sent, receive_payload, accept_packet,
  receive_in_state, update_receive_state, receive_packet,
}

module _ {F R M A : Type 0} where
  -- What the loop over the sent packets keeps: whatever does not depend on the round trip time, the
  -- counters and the events, nor on messages that come back into the queue.
  pub record Steady {X : Type 0} (see : Connection F R M A → X) : Type 0 where
    pub on_ack :
        (c : Connection F R M A) (n : ℕ) (t : F)
        → see (record c { acked_packets = n; smoothed_rtt = t }) ≡ see c
    pub on_loss : (c : Connection F R M A) (n : ℕ) → see (record c { lost_packets = n }) ≡ see c
    pub on_return :
        (c : Connection F R M A) (packet : List ℕ) → see (lose_payload (some packet) c) ≡ see c

  module _ {X : Type 0} (see : Connection F R M A → X) (steady : Steady see) where
    pub check_sent-Steady :
        (e : Env F R M) (ack bits : ℕ) (p : SentPacketAck) (c : Connection F R M A)
        {r : SentPacketAck × Connection F R M A}
        → check_sent e ack bits p c ≡ done r
        → see r.1 ≡ see c
    unfolding check_sent ack_packet lose_payload
    check_sent-Steady e ack bits p c {r} run =
        let (was_acked, _, run1) = returns (seq_was_acked p.seq ack bits) run in
        let (delay, _, run2) = returns (checked_sub c.last_receive_time p.time) run1 in
        by_case was_acked (ltb c.config.packet_drop_threshold delay) delay run2
      where
        given_back :
            (packet : Option (List ℕ)) (c : Connection F R M A)
            → see (lose_payload packet c) ≡ see c
        given_back none c = refl
        given_back (some packet) c = steady.on_return c packet

        by_case :
            (was_acked late : Bool) (delay : ℕ)
            → (if was_acked
                then ack_packet e delay p c
                else if late
                then done (
                  record p { state = PacketState.lost; packet = none },
                  lose_payload p.packet (record c { lost_packets = wrapping_inc c.lost_packets }),
                )
                else done (p, c))
              ≡ done r
            → see r.1 ≡ see c
        by_case true late delay h =
            let (tick, _, last) = returns (checked_div 1000 c.config.send_rate) h in
            sym (ap (λ x. see x.1) (done-injective last)) ∙ steady.on_ack c _ _
        by_case false true delay h =
            sym (ap (λ x. see x.1) (done-injective h))
            ∙ given_back p.packet (record c { lost_packets = wrapping_inc c.lost_packets })
            ∙ steady.on_loss c (wrapping_inc c.lost_packets)
        by_case false false delay h = sym (ap (λ x. see x.1) (done-injective h))

    pub check_all_sent-Steady :
        (e : Env F R M) (ack bits : ℕ) (ps : List SentPacketAck) (c : Connection F R M A)
        {r : List SentPacketAck × Connection F R M A}
        → check_all_sent e ack bits ps c ≡ done r
        → see r.1 ≡ see c
    unfolding check_all_sent
    check_all_sent-Steady e ack bits [] c run = sym (ap (λ x. see x.1) (done-injective run))
    check_all_sent-Steady e ack bits (p ∷ ps) c run =
        let ((p1, c1), run1, rest) = returns (check_sent e ack bits p c) run in
        let ((ps2, c2), run2, last) = returns (check_all_sent e ack bits ps c1) rest in
        sym (ap (λ x. see x.1) (done-injective last))
        ∙ check_all_sent-Steady e ack bits ps c1 run2
        ∙ check_sent-Steady e ack bits p c run1

  -- What is left alone by all of `receive_packet`.
  pub record Unmoved (e : Env F R M) {X : Type 0} (see : Connection F R M A → X) : Type 0 where
    pub steady : Steady see
    pub on_state :
        (s : ConnectionState) (packet : List ℕ) (c : Connection F R M A)
        → see (receive_in_state s packet c).0 ≡ see c
    pub on_accept :
        (c : Connection F R M A) (now seq : ℕ)
        → see (record c { last_receive_time = now; remote_seq_number = seq }) ≡ see c
    pub on_payload :
        (c : Connection F R M A) (payload : List ℕ) (sent : List SentPacketAck) (acks : List ℕ)
        (n : ℕ)
        → see (record (receive_payload e payload c) {
          sent_ack_queue = sent;
          recv_ack_queue = acks;
          recv_packets = n;
        })
          ≡ see c

  module _ {X : Type 0} (e : Env F R M) (see : Connection F R M A → X)
      (unmoved : Unmoved e see) where
    accept_packet-Unmoved :
        (packet : List ℕ) (now : ℕ) (c : Connection F R M A) {c' : Connection F R M A}
        → accept_packet e packet now c ≡ done c'
        → see c' ≡ see c
    unfolding accept_packet
    accept_packet-Unmoved packet now c run =
        let c1 : Connection F R M A = record c {
          last_receive_time = now;
          remote_seq_number = byte_at packet 8;
        } in
        let bits =
          u32_from_bytes (byte_at packet 10) (byte_at packet 11) (byte_at packet 12)
            (byte_at packet 13) in
        let ((sent, c2), run1, last) =
          returns (check_all_sent e (byte_at packet 9) bits c.sent_ack_queue c1) run in
        sym (ap see (done-injective last))
        ∙ unmoved.on_payload c2 (drop packet_header_size packet) _ _ _
        ∙ check_all_sent-Steady see unmoved.steady e (byte_at packet 9) bits c.sent_ack_queue c1
            run1
        ∙ unmoved.on_accept c now (byte_at packet 8)

    update_receive_state-Unmoved :
        (packet : List ℕ) (c : Connection F R M A) → see (update_receive_state packet c).0 ≡ see c
    unfolding update_receive_state
    update_receive_state-Unmoved packet c =
        elim (Bool-cases (has_protocol_header c.config packet)) [
          | inl t ↦ rw t (unmoved.on_state c.state packet c)
          | inr t ↦ rw t
        ]

    pub receive_packet-Unmoved :
        (packet : List ℕ) (clock : Clock) (c : Connection F R M A) {r : Connection F R M A × Bool}
        → receive_packet e packet clock c ≡ done r
        → see r.0 ≡ see c
    unfolding receive_packet
    receive_packet-Unmoved packet clock c {r} run =
        by_case (ltb (length packet) packet_header_size) (update_receive_state packet c).1 run
      where
        by_case :
            (short proceed : Bool)
            → (if short
                then done (c, false)
                else if proceed
                then accept_packet e packet (clock 0) (update_receive_state packet c).0
                  >>= (λ c''. done (c'', true))
                else done ((update_receive_state packet c).0, false))
              ≡ done r
            → see r.0 ≡ see c
        by_case true proceed h = sym (ap (λ x. see x.0) (done-injective h))
        by_case false true h =
            let (c2, run2, last) =
              returns (accept_packet e packet (clock 0) (update_receive_state packet c).0) h in
            sym (ap (λ x. see x.0) (done-injective last))
            ∙ accept_packet-Unmoved packet (clock 0) (update_receive_state packet c).0 run2
            ∙ update_receive_state-Unmoved packet c
        by_case false false h =
            sym (ap (λ x. see x.0) (done-injective h)) ∙ update_receive_state-Unmoved packet c
