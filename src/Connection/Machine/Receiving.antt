-- ===== src/Connection/Machine/Receiving.antt =====
-- src/shared/connection.rs: what `receive_packet` calls stays at a place of the state diagram.
use cobalt_rs.Common.{
  checked_div, ℕ, ◌≡◌, refl, sym, ap, subst, ◌∙◌, inl, inr, Bool, true, false, List, [], ◌∷◌, ◌++◌,
  Outcome, done, ltb, drop, returns, done-injective, Bool-cases, if◌then◌else◌, Option, none, some,
  checked_sub,
}
use cobalt_rs.Traits.{Env}
use cobalt_rs.Sequence.{seq_was_acked, u32_from_bytes}
use cobalt_rs.Connection.{
  Connection, ConnectionEvent, SentPacketAck, PacketState, byte_at, packet_header_size, push_event,
  wrapping_inc,
}
use cobalt_rs.Connection.Receive.{
  ack_packet, lose_payload, check_sent, check_all_sent, receive_payload, accept_packet,
}
use cobalt_rs.Connection.Machine.{Quiet, quiet, Quiet-trans}

module _ {F R M A : Type 0} where
  pub same_state :
      {B : Type 0} {c c' : Connection F R M A} {b b' : B}
      → ◌≡◌ {A = Connection F R M A × B} (c, b) (c', b')
      → Quiet c c' []
  same_state h = quiet (sym (ap (λ x. x.0.state) h)) (sym (ap (λ x. x.0.events) h))

  ack_packet-Quiet :
      (e : Env F R M) (delay : ℕ) (p : SentPacketAck) (c : Connection F R M A) {p' : SentPacketAck}
      {c' : Connection F R M A}
      → ack_packet e delay p c ≡ done (p', c')
      → Quiet c c' []
  unfolding ack_packet
  ack_packet-Quiet e delay p c {p'} {c'} run =
      let (tick, _, last) = returns (checked_div 1000 c.config.send_rate) run in
      let same = done-injective last in
      quiet (sym (ap (λ x. x.1.state) same)) (sym (ap (λ x. x.1.events) same))

  lose_payload-Quiet :
      (packet : Option (List ℕ)) (c : Connection F R M A)
      → (notes : List ConnectionEvent) × Quiet c (lose_payload packet c) notes
  unfolding lose_payload push_event
  lose_payload-Quiet none c = ([], quiet refl refl)
  lose_payload-Quiet (some packet) c = (
    ConnectionEvent.packet_lost (drop packet_header_size packet) ∷ [],
    record { same = refl; noted = refl; all_notes = (tt, tt) },
  )

  check_sent-Quiet :
      (e : Env F R M) (ack_seq bitfield : ℕ) (p : SentPacketAck) (c : Connection F R M A)
      {p' : SentPacketAck} {c' : Connection F R M A}
      → check_sent e ack_seq bitfield p c ≡ done (p', c')
      → (notes : List ConnectionEvent) × Quiet c c' notes
  unfolding check_sent
  check_sent-Quiet e ack_seq bitfield p c {p'} {c'} run =
      let (was_acked, _, run1) = returns (seq_was_acked p.seq ack_seq bitfield) run in
      let (delay, _, run2) = returns (checked_sub c.last_receive_time p.time) run1 in
      by_case was_acked delay run2
    where
      c1 : Connection F R M A
      c1 = record c { lost_packets = wrapping_inc c.lost_packets }

      lost_case :
          ◌≡◌ {A = Outcome (SentPacketAck × Connection F R M A)}
            (done (record p { state = PacketState.lost; packet = none }, lose_payload p.packet c1))
            (done (p', c'))
          → (notes : List ConnectionEvent) × Quiet c c' notes
      lost_case r =
          let same = ap (λ x. x.1) (done-injective r) in
          let (notes, q) = lose_payload-Quiet p.packet c1 in
          (
            notes,
            subst (λ x. Quiet c x notes) same (Quiet-trans {c' = c1} [] notes (quiet refl refl) q),
          )

      by_case :
          (was_acked : Bool) (delay : ℕ)
          → (if was_acked
              then ack_packet e delay p c
              else if ltb c.config.packet_drop_threshold delay
              then done
                  (record p { state = PacketState.lost; packet = none }, lose_payload p.packet c1)
              else done (p, c))
            ≡ done (p', c')
          → (notes : List ConnectionEvent) × Quiet c c' notes
      by_case true delay r = ([], ack_packet-Quiet e delay p c r)
      by_case false delay r = elim (Bool-cases (ltb c.config.packet_drop_threshold delay)) [
        | inl t ↦ lost_case (rw t at r)
        | inr t ↦
            let same = ap (λ x. x.1) (done-injective (rw t at r)) in
            ([], quiet (sym (ap (λ x. x.state) same)) (sym (ap (λ x. x.events) same)))
      ]

  check_all_sent-Quiet :
      (e : Env F R M) (ack_seq bitfield : ℕ) (ps : List SentPacketAck) (c : Connection F R M A)
      {ps' : List SentPacketAck} {c' : Connection F R M A}
      → check_all_sent e ack_seq bitfield ps c ≡ done (ps', c')
      → (notes : List ConnectionEvent) × Quiet c c' notes
  unfolding check_all_sent
  check_all_sent-Quiet e ack_seq bitfield [] c run =
      let same = ap (λ x. x.1) (done-injective run) in
      ([], quiet (sym (ap (λ x. x.state) same)) (sym (ap (λ x. x.events) same)))
  check_all_sent-Quiet e ack_seq bitfield (p ∷ ps) c run =
      let ((p1, c1), run1, rest) = returns (check_sent e ack_seq bitfield p c) run in
      let ((ps2, c2), run2, last) = returns (check_all_sent e ack_seq bitfield ps c1) rest in
      let (ms, s) = check_sent-Quiet e ack_seq bitfield p c run1 in
      let (ns, t) = check_all_sent-Quiet e ack_seq bitfield ps c1 run2 in
      (
        ms ++ ns,
        subst (λ x. Quiet c x (ms ++ ns)) (ap (λ x. x.1) (done-injective last))
            (Quiet-trans ms ns s t),
      )

  pub accept_packet-Quiet :
      (e : Env F R M) (packet : List ℕ) (now : ℕ) (c : Connection F R M A) {c' : Connection F R M A}
      → accept_packet e packet now c ≡ done c'
      → (notes : List ConnectionEvent) × Quiet c c' notes
  unfolding accept_packet receive_payload
  accept_packet-Quiet e packet now c run =
      let c1 : Connection F R M A = record c {
        last_receive_time = now;
        remote_seq_number = byte_at packet 8;
      } in
      let ((sent, c2), run1, last) =
        returns
          (check_all_sent e (byte_at packet 9)
            (u32_from_bytes (byte_at packet 10) (byte_at packet 11) (byte_at packet 12)
              (byte_at packet 13))
            c1.sent_ack_queue c1)
          run in
      let (notes, q) = check_all_sent-Quiet e (byte_at packet 9) _ c1.sent_ack_queue c1 run1 in
      let same = done-injective last in
      (
        notes,
        record {
          same = sym (ap (λ x. x.state) same) ∙ q.same;
          noted = sym (ap (λ x. x.events) same) ∙ q.noted;
          all_notes = q.all_notes;
        },
      )
