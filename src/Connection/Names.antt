-- ===== src/Connection/Names.antt =====
-- src/shared/connection.rs: what receiving and sending leave alone: the configuration, the addresses
-- and the id of a connection.
use cobalt_rs.Common.{
  ℕ, ◌+◌, ◌-◌, ◌≡◌, refl, sym, ap, ◌∙◌, inl, inr, Bool, true, false, List, ◌∷◌, ◌++◌, done, ltb,
  drop, returns, done-injective, Bool-cases, if◌then◌else◌, Option-cases, ◌%◌, checked_sub, not,
}
use mathlib.Core.Bool.{xor}
use cobalt_rs.Config.{Config}
use cobalt_rs.Traits.{Clock, Env, Socket}
use cobalt_rs.MessageQueue
use cobalt_rs.Sequence.{u32_bytes, ack_bitfield}
use cobalt_rs.Connection.{
  Connection, ConnectionState, connecting, failed_to_connect, closing, ConnectionEvent,
  packet_header_size, push_event, rtt, packet_loss,
}
use cobalt_rs.Connection.Receive.{
  lose_payload, receive_payload, receive_in_state, receive_packet, has_closure_data,
}
use cobalt_rs.Connection.Send.{
  packet_prefix, write_body, write_packet, modify_packet, record_sent, hand_over, emit_packet,
  fail_with, send_in_state, update_congestion, update_send_state, send_packet,
}
use cobalt_rs.Connection.Steady.{Steady, Unmoved, receive_packet-Unmoved}

module _ {F R M A : Type 0} where
  -- What names a connection.
  abbrev pub name : Connection F R M A → Config F × A × A × ℕ
  name c = (c.config, c.local_address, c.peer_address, c.random_id)

  name-Steady : Steady name
  unfolding lose_payload push_event
  name-Steady = record {
    on_ack = λ c n t. refl;
    on_loss = λ c n. refl;
    on_return = λ c packet. refl;
  }

  receive_in_state-name :
      (s : ConnectionState) (packet : List ℕ) (c : Connection F R M A)
      → name (receive_in_state s packet c).0 ≡ name c
  unfolding receive_in_state push_event
  receive_in_state-name ConnectionState.lost packet c = refl
  receive_in_state-name ConnectionState.closed packet c = refl
  receive_in_state-name failed_to_connect packet c = refl
  receive_in_state-name closing packet c = refl
  receive_in_state-name connecting packet c = refl
  receive_in_state-name ConnectionState.connected packet c =
      elim (Bool-cases (has_closure_data packet)) [ inl t ↦ rw t | inr t ↦ rw t ]

  name-Unmoved : (e : Env F R M) → Unmoved e name
  unfolding receive_payload
  name-Unmoved e = record {
    steady = name-Steady;
    on_state = receive_in_state-name;
    on_accept = λ c now seq. refl;
    on_payload = λ c payload sent acks n. refl;
  }

  pub receive_packet-name :
      (e : Env F R M) (packet : List ℕ) (clock : Clock) (c : Connection F R M A)
      {r : Connection F R M A × Bool}
      → receive_packet e packet clock c ≡ done r
      → name r.0 ≡ name c
  receive_packet-name e packet clock c run =
      receive_packet-Unmoved e name (name-Unmoved e) packet clock c run

  send_in_state-name :
      (s : ConnectionState) (receive_time send_time : ℕ) (c : Connection F R M A)
      → name (send_in_state s receive_time send_time c).0 ≡ name c
  unfolding send_in_state fail_with push_event
  send_in_state-name ConnectionState.lost receive_time send_time c = refl
  send_in_state-name ConnectionState.closed receive_time send_time c = refl
  send_in_state-name failed_to_connect receive_time send_time c = refl
  send_in_state-name connecting receive_time send_time c =
      elim (Bool-cases (ltb c.config.connection_init_threshold receive_time)) [
        | inl t ↦ rw t
        | inr t ↦ rw t
      ]
  send_in_state-name ConnectionState.connected receive_time send_time c =
      elim (Bool-cases (ltb c.config.connection_drop_threshold receive_time)) [
        | inl t ↦ rw t
        | inr t ↦ elim (Bool-cases (ltb c.config.connection_drop_threshold send_time)) [
          | inl u ↦ rw (t, u)
          | inr u ↦ rw (t, u)
        ]
      ]
  send_in_state-name closing receive_time send_time c =
      elim (Bool-cases (ltb c.config.connection_closing_threshold receive_time)) [
        | inl t ↦ rw t
        | inr t ↦ rw t
      ]

  update_congestion-name :
      (e : Env F R M) (clock : Clock) (c : Connection F R M A)
      → name (update_congestion e clock c) ≡ name c
  unfolding update_congestion push_event
  update_congestion-name e clock c = by_case (
      xor (e.limiter.congested c.rate_limiter) (
        e.limiter.congested
          (e.limiter.update c.rate_limiter (rtt e.ops c) (packet_loss e.ops c) clock)))
    where
      by_case :
          (b : Bool)
          → name (
              let c' : Connection F R M A = record c {
                rate_limiter =
                    e.limiter.update c.rate_limiter (rtt e.ops c) (packet_loss e.ops c) clock;
              } in
              if b
              then push_event
                  (ConnectionEvent.congestion_state_changed
                    (not (e.limiter.congested c.rate_limiter)))
                  c'
              else c')
            ≡ name c
      by_case true = refl
      by_case false = refl

  write_body-name :
      (e : Env F R M) (prefix : List ℕ) (c : Connection F R M A) {r : Connection F R M A × List ℕ}
      → write_body e prefix c ≡ done r
      → name r.0 ≡ name c
  unfolding write_body
  write_body-name e prefix c run =
      let (bits, _, run1) = returns (ack_bitfield c.recv_ack_queue c.remote_seq_number 0) run in
      let (room, _, run2) =
        returns (checked_sub c.config.packet_max_size packet_header_size) run1 in
      let (q, _, last) =
        returns
          (MessageQueue.send_packet e.ops c.message_queue
            (prefix ++ (c.local_seq_number % 256) ∷ (c.remote_seq_number % 256) ∷ u32_bytes bits)
            room)
          run2 in
      sym (ap (λ x. name x.0) (done-injective last))

  write_packet-name :
      (e : Env F R M) (s : ConnectionState) (c : Connection F R M A)
      {r : Connection F R M A × List ℕ}
      → write_packet e s c ≡ done r
      → name r.0 ≡ name c
  unfolding write_packet
  write_packet-name e closing c run = sym (ap (λ x. name x.0) (done-injective run))
  write_packet-name e connecting c run =
      write_body-name e (packet_prefix c.config c.random_id) c run
  write_packet-name e ConnectionState.connected c run =
      write_body-name e (packet_prefix c.config c.random_id) c run
  write_packet-name e failed_to_connect c run =
      write_body-name e (packet_prefix c.config c.random_id) c run
  write_packet-name e ConnectionState.lost c run =
      write_body-name e (packet_prefix c.config c.random_id) c run
  write_packet-name e ConnectionState.closed c run =
      write_body-name e (packet_prefix c.config c.random_id) c run

  modify_packet-name :
      (e : Env F R M) (packet : List ℕ) (c : Connection F R M A)
      → name (modify_packet e packet c).0 ≡ name c
  unfolding modify_packet
  modify_packet-name e packet c =
      elim (Option-cases
        (e.modifier.outgoing c.packet_modifier (drop packet_header_size packet)).0) [
          | inl n ↦ rw (n, modify_packet)
          | inr (payload, n) ↦ rw (n, modify_packet)
        ]

  module _ {S : Type 0} where
    hand_over-name :
        (net : Socket S A) (socket : S) (addr : A) (clock : Clock) (packet : List ℕ)
        (c : Connection F R M A)
        → name (hand_over net socket addr clock packet c).0 ≡ name c
    unfolding hand_over record_sent
    hand_over-name net socket addr clock packet c =
        elim (Option-cases (net.send_to socket packet addr).0) [
          | inl n ↦ rw (n, hand_over)
          | inr (k, n) ↦ rw (n, hand_over)
        ]

    emit_packet-name :
        (e : Env F R M) (net : Socket S A) (socket : S) (addr : A) (clock : Clock)
        (c : Connection F R M A) {r : Connection F R M A × S × ℕ}
        → emit_packet e net socket addr clock c ≡ done r
        → name r.0 ≡ name c
    unfolding emit_packet
    emit_packet-name e net socket addr clock c run =
        let ((c1, written), run1, last) = returns (write_packet e c.state c) run in
        sym (ap (λ x. name x.0) (done-injective last))
        ∙ hand_over-name net socket addr clock (modify_packet e written c1).1
            (modify_packet e written c1).0
        ∙ modify_packet-name e written c1
        ∙ write_packet-name e c.state c run1

    pub send_packet-name :
        (e : Env F R M) (net : Socket S A) (socket : S) (addr : A) (clock : Clock)
        (c : Connection F R M A) {r : Connection F R M A × S × ℕ}
        → send_packet e net socket addr clock c ≡ done r
        → name r.0 ≡ name c
    unfolding send_packet update_send_state
    send_packet-name e net socket addr clock c {r} run =
        by_case proceed (e.limiter.should_send c2.rate_limiter) run
      where
        c1 : Connection F R M A
        c1 = (update_send_state clock c).0

        proceed : Bool
        proceed = (update_send_state clock c).1

        c2 : Connection F R M A
        c2 = update_congestion e (λ i. clock (i + 4)) c1

        c1-name : name c1 ≡ name c
        c1-name =
            send_in_state-name c.state (clock 0 - c.last_receive_time) (clock 1 - c.last_send_time)
              c

        by_case :
            (goes may : Bool)
            → (if goes
                then if may then emit_packet e net socket addr clock c2 else done (c2, socket, 0)
                else done (c1, socket, 0))
              ≡ done r
            → name r.0 ≡ name c
        by_case true true h =
            emit_packet-name e net socket addr clock c2 h
            ∙ update_congestion-name e (λ i. clock (i + 4)) c1
            ∙ c1-name
        by_case true false h =
            sym (ap (λ x. name x.0) (done-injective h))
            ∙ update_congestion-name e (λ i. clock (i + 4)) c1
            ∙ c1-name
        by_case false may h = sym (ap (λ x. name x.0) (done-injective h)) ∙ c1-name
