-- ===== src/Connection/Machine/Sending.antt =====
-- src/shared/connection.rs: what `send_packet` calls stays at a place of the state diagram.
use cobalt_rs.Common.{
  ℕ, ◌≡◌, refl, sym, ap, subst, inl, inr, Bool, List, [], ◌∷◌, ◌++◌, done, drop, returns,
  done-injective, Bool-cases, Option-cases, ◌%◌, checked_sub, not,
}
use mathlib.Core.Bool.{xor}
use cobalt_rs.Traits.{Clock, Env, Socket}
use cobalt_rs.MessageQueue
use cobalt_rs.Sequence.{u32_bytes, ack_bitfield}
use cobalt_rs.Connection.{
  Connection, ConnectionState, closing, ConnectionEvent, packet_header_size, push_event, rtt,
  packet_loss,
}
use cobalt_rs.Connection.Send.{
  packet_prefix, write_body, write_packet, modify_packet, record_sent, hand_over, emit_packet,
  update_congestion,
}
use cobalt_rs.Connection.Machine.{Quiet, quiet, Quiet-trans}
use cobalt_rs.Connection.Machine.Receiving.{same_state}

module _ {F R M A : Type 0} where
  write_body-Quiet :
      (e : Env F R M) (prefix : List ℕ) (c : Connection F R M A) {c' : Connection F R M A}
      {packet : List ℕ}
      → write_body e prefix c ≡ done (c', packet)
      → Quiet c c' []
  unfolding write_body
  write_body-Quiet e prefix c run =
      let (bits, _, run1) = returns (ack_bitfield c.recv_ack_queue c.remote_seq_number 0) run in
      let (available, _, run2) =
        returns (checked_sub c.config.packet_max_size packet_header_size) run1 in
      let (out, _, last) =
        returns
          (MessageQueue.send_packet e.ops c.message_queue
            (prefix ++ (c.local_seq_number % 256) ∷ (c.remote_seq_number % 256) ∷ u32_bytes bits)
            available)
          run2 in
      let same = done-injective last in
      quiet (sym (ap (λ x. x.0.state) same)) (sym (ap (λ x. x.0.events) same))

  write_packet-Quiet :
      (e : Env F R M) (s : ConnectionState) (c : Connection F R M A) {c' : Connection F R M A}
      {packet : List ℕ}
      → write_packet e s c ≡ done (c', packet)
      → Quiet c c' []
  unfolding write_packet
  write_packet-Quiet e closing c run = same_state (done-injective run)
  write_packet-Quiet e _ c run = write_body-Quiet e (packet_prefix c.config c.random_id) c run

  modify_packet-Quiet :
      (e : Env F R M) (packet : List ℕ) (c : Connection F R M A)
      → Quiet c (modify_packet e packet c).0 []
  unfolding modify_packet
  modify_packet-Quiet e packet c =
      elim (Option-cases
        (e.modifier.outgoing c.packet_modifier (drop packet_header_size packet)).0) [
          | inl h ↦ rw (h, modify_packet) (quiet refl refl)
          | inr (payload, h) ↦ rw (h, modify_packet) (quiet refl refl)
        ]

  hand_over-Quiet :
      {S : Type 0} (net : Socket S A) (socket : S) (addr : A) (clock : Clock) (packet : List ℕ)
      (c : Connection F R M A)
      → Quiet c (hand_over net socket addr clock packet c).0 []
  unfolding hand_over record_sent
  hand_over-Quiet net socket addr clock packet c =
      elim (Option-cases (net.send_to socket packet addr).0) [
        | inl h ↦ rw (h, hand_over) (quiet refl refl)
        | inr (n, h) ↦ rw (h, hand_over) (quiet refl refl)
      ]

  pub emit_packet-Quiet :
      {S : Type 0} (e : Env F R M) (net : Socket S A) (socket : S) (addr : A) (clock : Clock)
      (c : Connection F R M A) {c' : Connection F R M A} {socket' : S} {sent : ℕ}
      → emit_packet e net socket addr clock c ≡ done (c', socket', sent)
      → Quiet c c' []
  unfolding emit_packet
  emit_packet-Quiet e net socket addr clock c run =
      let ((c1, written), run1, last) = returns (write_packet e c.state c) run in
      let c2 : Connection F R M A = (modify_packet e written c1).0 in
      let packet : List ℕ = (modify_packet e written c1).1 in
      subst (λ x. Quiet c x []) (ap (λ x. x.0) (done-injective last))
        (Quiet-trans [] [] (write_packet-Quiet e c.state c run1) (
          Quiet-trans [] [] (modify_packet-Quiet e written c1)
            (hand_over-Quiet net socket addr clock packet c2)))

  pub update_congestion-Quiet :
      (e : Env F R M) (clock : Clock) (c : Connection F R M A)
      → (notes : List ConnectionEvent) × Quiet c (update_congestion e clock c) notes
  unfolding update_congestion push_event
  update_congestion-Quiet e clock c = elim (Bool-cases changes) [
    | inl t ↦ (
      ConnectionEvent.congestion_state_changed (not (e.limiter.congested c.rate_limiter)) ∷ [],
      rw t (record { same = refl; noted = refl; all_notes = (tt, tt) }),
    )
    | inr t ↦ ([], rw t (quiet refl refl))
  ]
    where
      changes : Bool
      changes = xor (e.limiter.congested c.rate_limiter) (
          e.limiter.congested
            (e.limiter.update c.rate_limiter (rtt e.ops c) (packet_loss e.ops c) clock))
