-- ===== src/Connection/Send.antt =====
-- src/shared/connection.rs: `send_packet` and what it calls. The points that read the clock are
-- numbered: 0 and 1 in `update_send_state`, 2 after the packet was sent, 3 when it is recorded, and
-- from 4 on in the rate limiter.
use cobalt_rs.Common.{
  ℕ, ◌+◌, ◌-◌, ◌%◌, ◌^◌, List, [], ◌∷◌, ◌++◌, Bool, true, false, ◌&&◌, not, ltb, ◌==◌,
  if◌then◌else◌, none, some, length, take, drop, Outcome, done, checked_sub, ◌>>=◌,
}
use mathlib.Core.Bool.{xor}
use cobalt_rs.Config.{Config}
use cobalt_rs.MessageQueue
use cobalt_rs.Sequence.{ack_bitfield, u32_bytes, max_seq_number}
use cobalt_rs.Traits.{Clock, Env, Socket}
use cobalt_rs.Connection.{
  Connection, ConnectionState, connecting, failed_to_connect, closing, ConnectionEvent, unknown,
  SentPacketAck, packet_header_size, closure_packet_data, wrapping_inc, push_event, rtt,
  packet_loss,
}

unfoldable pub send_ack_required : ℕ → List SentPacketAck → Bool
send_ack_required seq [] = true
send_ack_required seq (p ∷ ps) = not (p.seq == seq) && send_ack_required seq ps

-- `n += 1; if n == MAX_SEQ_NUMBER { n = 0 }`
unfoldable pub next_seq_number : ℕ → ℕ
next_seq_number n = if n + 1 == max_seq_number then 0 else n + 1

-- The protocol header and the connection id.
unfoldable pub packet_prefix : {F : Type 0} → Config F → ℕ → List ℕ
unfolding u32_bytes
packet_prefix config id =
    config.protocol_header.0
    ∷ config.protocol_header.1
    ∷ config.protocol_header.2
    ∷ config.protocol_header.3
    ∷ u32_bytes id

module _ {F R M A : Type 0} where
  -- The connection is given up: a new state and an event.
  unfoldable pub fail_with :
      ConnectionState → ConnectionEvent → Connection F R M A → Connection F R M A × Bool
  unfolding push_event
  fail_with state event c = (push_event event (record c { state = state }), false)

  -- The `match` of `update_send_state`, by the times without a receipt and without a sending.
  unfoldable pub send_in_state :
      ConnectionState → ℕ → ℕ → Connection F R M A → Connection F R M A × Bool
  unfolding fail_with
  send_in_state ConnectionState.lost receive_time send_time c = (c, false)
  send_in_state ConnectionState.closed receive_time send_time c = (c, false)
  send_in_state failed_to_connect receive_time send_time c = (c, false)
  send_in_state connecting receive_time send_time c =
      if ltb c.config.connection_init_threshold receive_time
      then fail_with failed_to_connect ConnectionEvent.failed_to_connect c
      else (c, true)
  send_in_state ConnectionState.connected receive_time send_time c =
      if ltb c.config.connection_drop_threshold receive_time
      then fail_with ConnectionState.lost (ConnectionEvent.lost true) c
      else if ltb c.config.connection_drop_threshold send_time
      then fail_with ConnectionState.lost (ConnectionEvent.lost false) c
      else (c, true)
  send_in_state closing receive_time send_time c =
      if ltb c.config.connection_closing_threshold receive_time
      then fail_with ConnectionState.closed (ConnectionEvent.closed false) c
      else (c, true)

  -- `elapsed` is 0 where the clock stands before the instant.
  unfoldable pub update_send_state : Clock → Connection F R M A → Connection F R M A × Bool
  unfolding send_in_state
  update_send_state clock c =
      send_in_state c.state (clock 0 - c.last_receive_time) (clock 1 - c.last_send_time) c

  -- The rate limiter's update, and an event if the congestion state changes.
  unfoldable pub update_congestion : Env F R M → Clock → Connection F R M A → Connection F R M A
  unfolding rtt packet_loss push_event
  update_congestion e clock c =
      let limiter = e.limiter.update c.rate_limiter (rtt e.ops c) (packet_loss e.ops c) clock in
      let c' = record c { rate_limiter = limiter } in
      let before = e.limiter.congested c.rate_limiter in
      if xor before (e.limiter.congested limiter)
      then push_event (ConnectionEvent.congestion_state_changed (not before)) c'
      else c'

  -- Sequence numbers, bitfield and messages, behind the prefix of the packet.
  unfoldable pub write_body :
      Env F R M → List ℕ → Connection F R M A → Outcome (Connection F R M A × List ℕ)
  unfolding ack_bitfield u32_bytes
  write_body e prefix c = do
    bitfield ← ack_bitfield c.recv_ack_queue c.remote_seq_number 0
    available ← checked_sub c.config.packet_max_size packet_header_size
    (queue, packet) ←
        MessageQueue.send_packet e.ops c.message_queue
          (prefix ++ (c.local_seq_number % 256) ∷ (c.remote_seq_number % 256) ∷ u32_bytes bitfield)
          available
    done (record c { message_queue = queue }, packet)

  unfoldable pub write_packet :
      Env F R M → ConnectionState → Connection F R M A → Outcome (Connection F R M A × List ℕ)
  unfolding packet_prefix write_body
  write_packet e closing c = done (c, packet_prefix c.config c.random_id ++ closure_packet_data)
  write_packet e _ c = write_body e (packet_prefix c.config c.random_id) c

  -- `packet_modifier.outgoing`
  unfoldable pub modify_packet :
      Env F R M → List ℕ → Connection F R M A → Connection F R M A × List ℕ
  modify_packet e packet c =
      let (modified, modifier) =
        e.modifier.outgoing c.packet_modifier (drop packet_header_size packet) in
      let c' = record c { packet_modifier = modifier } in
      elim modified [
        | none ↦ (c', packet)
        | some payload ↦ (c', take packet_header_size packet ++ payload)
      ]

  -- What is recorded of a packet that was handed to the socket; `sent` says whether without error.
  unfoldable pub record_sent : Clock → Bool → List ℕ → Connection F R M A → Connection F R M A
  unfolding send_ack_required next_seq_number wrapping_inc
  record_sent clock sent packet c = record c {
    last_send_time = if sent then clock 2 else c.last_send_time;
    sent_ack_queue =
        if send_ack_required c.local_seq_number c.sent_ack_queue
        then c.sent_ack_queue
          ++ record {
            seq = c.local_seq_number;
            time = clock 3;
            state = unknown;
            packet = some packet;
          }
            ∷ []
        else c.sent_ack_queue;
    local_seq_number = next_seq_number c.local_seq_number;
    sent_packets = wrapping_inc c.sent_packets;
    message_queue = MessageQueue.dismiss c.message_queue;
  }

  -- `socket.send_to`, and what is recorded of it.
  unfoldable pub hand_over :
      {S : Type 0}
      → Socket S A
      → S
      → A
      → Clock
      → List ℕ
      → Connection F R M A
      → Connection F R M A × S × ℕ
  unfolding record_sent
  hand_over net socket addr clock packet c =
      let (result, socket') = net.send_to socket packet addr in
      elim result [
        | none ↦ (record_sent clock false packet c, socket', 0)
        | some n ↦ (record_sent clock true packet c, socket', length packet % 2 ^ 32)
      ]

  -- The packet is written, modified, handed to the socket and recorded. The number is the count of
  -- bytes that were sent.
  unfoldable pub emit_packet :
      {S : Type 0}
      → Env F R M
      → Socket S A
      → S
      → A
      → Clock
      → Connection F R M A
      → Outcome (Connection F R M A × S × ℕ)
  unfolding write_packet modify_packet hand_over
  emit_packet e net socket addr clock c = do
    (c1, written) ← write_packet e c.state c
    let (c2, packet) = modify_packet e written c1
    done (hand_over net socket addr clock packet c2)

  unfoldable pub send_packet :
      {S : Type 0}
      → Env F R M
      → Socket S A
      → S
      → A
      → Clock
      → Connection F R M A
      → Outcome (Connection F R M A × S × ℕ)
  unfolding update_send_state update_congestion emit_packet
  send_packet e net socket addr clock c =
      let (c1, proceed) = update_send_state clock c in
      let c2 = update_congestion e (λ i. clock (i + 4)) c1 in
      if proceed
      then if e.limiter.should_send c2.rate_limiter
        then emit_packet e net socket addr clock c2
        else done (c2, socket, 0)
      else done (c1, socket, 0)
