-- ===== src/Connection/Receive.antt =====
-- src/shared/connection.rs: `receive_packet` and what it calls.
use cobalt_rs.Common.{
  ℕ, ◌-◌, ◌*◌, max, List, [], ◌∷◌, Bool, true, false, ◌&&◌, ltb, ◌==◌, if◌then◌else◌, Option, none,
  some, length, drop, Outcome, done, checked_sub, checked_div, ◌>>=◌,
}
use cobalt_rs.MessageQueue
use mathlib.Core.Option
use cobalt_rs.Sequence.{seq_is_more_recent, seq_was_acked, u32_from_bytes, max_ack_bits}
use cobalt_rs.Traits.{Clock, Env}
use cobalt_rs.Connection.{
  Connection, ConnectionState, connecting, failed_to_connect, closing, ConnectionEvent, PacketState,
  unknown, acked, SentPacketAck, packet_header_size, has_protocol_header, byte_at, wrapping_inc,
  moving_average, push_event,
}

-- `&packet[8..14] == &CLOSURE_PACKET_DATA`
unfoldable pub has_closure_data : List ℕ → Bool
unfolding byte_at
has_closure_data packet =
    byte_at packet 8 == 0
    && byte_at packet 9 == 128
    && byte_at packet 10 == 85
    && byte_at packet 11 == 85
    && byte_at packet 12 == 85
    && byte_at packet 13 == 85

-- `VecDeque::pop_back`
abbrev pub pop_back : List ℕ → List ℕ
pop_back [] = []
pop_back (x ∷ []) = []
pop_back (x ∷ y ∷ xs) = x ∷ pop_back (y ∷ xs)

unfoldable pub push_recv_ack : ℕ → List ℕ → List ℕ
push_recv_ack seq queue =
    if ltb max_ack_bits (length (seq ∷ queue)) then pop_back (seq ∷ queue) else seq ∷ queue

abbrev pub is_unknown : PacketState → Bool
is_unknown unknown = true
is_unknown _ = false

-- `retain(|p| p.state == PacketState::Unknown)`
unfoldable pub retain_unknown : List SentPacketAck → List SentPacketAck
retain_unknown [] = []
retain_unknown (p ∷ ps) = if is_unknown p.state then p ∷ retain_unknown ps else retain_unknown ps

module _ {F R M A : Type 0} where
  -- The `match` of `update_receive_state`, for a packet with the right protocol header.
  unfoldable pub receive_in_state :
      ConnectionState → List ℕ → Connection F R M A → Connection F R M A × Bool
  unfolding has_closure_data seq_is_more_recent byte_at push_event
  receive_in_state ConnectionState.lost packet c = (c, false)
  receive_in_state ConnectionState.closed packet c = (c, false)
  receive_in_state failed_to_connect packet c = (c, false)
  receive_in_state closing packet c = (c, true)
  receive_in_state connecting packet c = (
    push_event ConnectionEvent.connected
        (record c { state = ConnectionState.connected; lost_packets = 0 }),
    true,
  )
  receive_in_state ConnectionState.connected packet c =
      if has_closure_data packet
      then (
        push_event (ConnectionEvent.closed true) (record c { state = ConnectionState.closed }),
        false,
      )
      else (c, seq_is_more_recent (byte_at packet 8) c.remote_seq_number)

  unfoldable pub update_receive_state : List ℕ → Connection F R M A → Connection F R M A × Bool
  unfolding has_protocol_header receive_in_state
  update_receive_state packet c =
      if has_protocol_header c.config packet then receive_in_state c.state packet c else (c, false)

  -- A packet that was acknowledged: `delay` is the time from its sending to the last receipt.
  unfoldable pub ack_packet :
      Env F R M
      → ℕ
      → SentPacketAck
      → Connection F R M A
      → Outcome (SentPacketAck × Connection F R M A)
  unfolding moving_average wrapping_inc
  ack_packet e delay p c = do
    tick ← checked_div 1000 c.config.send_rate
    let tick_delay = tick * 1000000
    done (
      record p { state = acked },
      record c {
        acked_packets = wrapping_inc c.acked_packets;
        smoothed_rtt = moving_average e.ops c.smoothed_rtt (max delay tick_delay - tick_delay);
      },
    )

  -- The packet of a lost entry: its messages go back into the queue.
  unfoldable pub lose_payload : Option (List ℕ) → Connection F R M A → Connection F R M A
  unfolding push_event
  lose_payload none c = c
  lose_payload (some packet) c =
      push_event (ConnectionEvent.packet_lost (drop packet_header_size packet)) (record c {
        message_queue = MessageQueue.lost_packet (drop packet_header_size packet) c.message_queue;
      })

  -- One round of the loop over the sent packets.
  unfoldable pub check_sent :
      Env F R M
      → ℕ
      → ℕ
      → SentPacketAck
      → Connection F R M A
      → Outcome (SentPacketAck × Connection F R M A)
  unfolding seq_was_acked ack_packet lose_payload wrapping_inc
  check_sent e ack_seq bitfield p c = do
    was_acked ← seq_was_acked p.seq ack_seq bitfield
    delay ← checked_sub c.last_receive_time p.time
    if was_acked
        then ack_packet e delay p c
        else if ltb c.config.packet_drop_threshold delay
        then done (
          record p { state = PacketState.lost; packet = none },
          lose_payload p.packet (record c { lost_packets = wrapping_inc c.lost_packets }),
        )
        else done (p, c)

  unfoldable pub check_all_sent :
      Env F R M
      → ℕ
      → ℕ
      → List SentPacketAck
      → Connection F R M A
      → Outcome (List SentPacketAck × Connection F R M A)
  unfolding check_sent
  check_all_sent e ack_seq bitfield [] c = done ([], c)
  check_all_sent e ack_seq bitfield (p ∷ ps) c = do
    (p', c') ← check_sent e ack_seq bitfield p c
    (ps', c'') ← check_all_sent e ack_seq bitfield ps c'
    done (p' ∷ ps', c'')

  -- `packet_modifier.incoming`, then the message queue.
  unfoldable pub receive_payload : Env F R M → List ℕ → Connection F R M A → Connection F R M A
  receive_payload e payload c =
      let (modified, modifier) = e.modifier.incoming c.packet_modifier payload in
      record c {
        packet_modifier = modifier;
        message_queue =
            MessageQueue.receive_packet (Option.get_or modified payload) c.message_queue;
      }

  -- What follows the check of the packet's state.
  unfoldable pub accept_packet :
      Env F R M → List ℕ → ℕ → Connection F R M A → Outcome (Connection F R M A)
  unfolding check_all_sent receive_payload retain_unknown push_recv_ack wrapping_inc byte_at
      u32_from_bytes
  accept_packet e packet now c = do
    let c1 = record c { last_receive_time = now; remote_seq_number = byte_at packet 8 }
    let bitfield =
        u32_from_bytes (byte_at packet 10) (byte_at packet 11) (byte_at packet 12)
          (byte_at packet 13)
    (sent, c2) ← check_all_sent e (byte_at packet 9) bitfield c1.sent_ack_queue c1
    let c3 = receive_payload e (drop packet_header_size packet) c2
    done (record c3 {
      sent_ack_queue = retain_unknown sent;
      recv_ack_queue = push_recv_ack c3.remote_seq_number c3.recv_ack_queue;
      recv_packets = wrapping_inc c3.recv_packets;
    })

  -- The connection, and whether the packet was consumed.
  unfoldable pub receive_packet :
      Env F R M → List ℕ → Clock → Connection F R M A → Outcome (Connection F R M A × Bool)
  unfolding update_receive_state accept_packet
  receive_packet e packet clock c =
      let (c', proceed) = update_receive_state packet c in
      if ltb (length packet) packet_header_size
      then done (c, false)
      else if proceed
      then accept_packet e packet (clock 0) c' >>= (λ c''. done (c'', true))
      else done (c', false)
