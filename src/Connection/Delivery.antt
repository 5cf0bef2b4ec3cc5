-- ===== src/Connection/Delivery.antt =====
-- src/shared/connection.rs: a packet from one connection to another.
pub mod Modifier
pub mod Receipt
pub use Modifier.{Undoes}
pub use Receipt.{Takes}
use Modifier.{changed, modify_packet-Modified, has_header-id, same_header}
use Receipt.{takes, Told}
use cobalt_rs.Common.{
  ℕ, zero, suc, ◌+◌, ◌-◌, ◌≤◌, ◌<◌, ◌≡◌, refl, sym, ap, subst, ◌∙◌, ◌⊎◌, inl, inr, List, [], ◌∷◌,
  ◌++◌, Bool, true, false, ◌&&◌, ◌==◌, ltb, leb, length, take, drop, arith, Option, none, some,
  Option-cases, Bool-cases, Outcome, done, returns, done-injective, if◌then◌else◌, ◌>>=◌,
}
use mathlib.Core.Option
use cobalt_rs.Message.{
  MessageKind, instant, reliable, ordered, Message, serialize_all, messages_from_packet,
}
use cobalt_rs.Message.RoundTrip.{messages_from_packet-serialize_all}
use cobalt_rs.MessageQueue
use cobalt_rs.MessageQueue.{MessageQueue, receive_messages}
use cobalt_rs.MessageQueue.Sends.{of_kind}
use cobalt_rs.MessageQueue.Delivery.{WellFormed, Sends-IsWellFormed}
use cobalt_rs.MessageQueue.Inbox.{inbox, inbox-receive_messages, inbox-lost_packet}
use cobalt_rs.Sequence.{seq_is_more_recent, u32_from_bytes}
use cobalt_rs.Traits.{Clock, Env, PacketModifier}
use cobalt_rs.Connection.{
  Connection, ConnectionState, connecting, closing, packet_header_size, has_protocol_header,
  id_from_packet, byte_at, push_event,
}
use cobalt_rs.Connection.Receive.{
  has_closure_data, receive_in_state, update_receive_state, accept_packet, receive_payload,
  receive_packet, check_all_sent, lose_payload,
}
use cobalt_rs.Connection.Send.{packet_prefix, write_body, modify_packet}
use cobalt_rs.Connection.Steady.{Steady, check_all_sent-Steady}
use cobalt_rs.Connection.Invariant.{IsValid, IsConfigured}
use cobalt_rs.Connection.Invariant.Write.{Tells, write_body_lem}
use cobalt_rs.Config.{Config}
use cobalt_rs.Connection.Invariant.Accept.{accept_packet-Accepted, receive_in_state-Kept, Kept}
use cobalt_rs.Common.{◌||◌, contains, All-map}
use cobalt_rs.Sequence.{seq_was_acked}
use cobalt_rs.Sequence.Acks.{behind}
use cobalt_rs.Connection.Waiting.{keep_if, waits}
use cobalt_rs.Connection.Invariant.{Pending}
use cobalt_rs.Connection.Invariant.Write.{number_at}

module _ {F R M A : Type 0} where
  -- What the receiver `d` has made of the packet of `c`.
  abbrev pub Arrives : Env F R M → Clock → Connection F R M A → Connection F R M A → Type 0
  Arrives e clock c d =
      (c' : Connection F R M A) × (written : List ℕ) × (out : List Message) × (d' : Connection F R M
        A)
      × (write_body e (packet_prefix c.config c.random_id) c ≡ done (c', written))
      × (receive_packet e (modify_packet e written c').1 clock d ≡ done (d', true))
      × (inbox d'.message_queue ≡ inbox (receive_messages out d.message_queue))
      × (c.message_queue.i_queue ≡ of_kind instant out ++ c'.message_queue.i_queue)
      × (c.message_queue.r_queue ≡ of_kind reliable out ++ c'.message_queue.r_queue)
      × (c.message_queue.o_queue ≡ of_kind ordered out ++ c'.message_queue.o_queue)
      × (d'.remote_seq_number ≡ c.local_seq_number)
      × IsValid (clock 0) d'

  -- Whether a packet of `c` acknowledges the sequence number: it is the one noted as the last, which is
  -- 0 also where nothing was received, or was received and lies at most 32 behind that one.
  abbrev pub acknowledges : Connection F R M A → ℕ → Bool
  acknowledges c seq =
      seq == c.remote_seq_number
      || (contains seq c.recv_ack_queue && ltb (behind seq c.remote_seq_number) 32)

  -- The packet of `c` and what `d` makes of its acknowledgements.
  abbrev pub Settles : Env F R M → Clock → Connection F R M A → Connection F R M A → Type 0
  Settles e clock c d =
      (c' : Connection F R M A) × (written : List ℕ) × (d' : Connection F R M A) × (write_body e
          (packet_prefix c.config c.random_id) c
        ≡ done (c', written))
      × (receive_packet e (modify_packet e written c').1 clock d ≡ done (d', true))
      × (d'.sent_ack_queue
          ≡ keep_if (waits (clock 0) d.config.packet_drop_threshold (acknowledges c))
              d.sent_ack_queue)

  arrival :
      (e : Env F R M) (now before : ℕ) (clock : Clock) (c d : Connection F R M A)
      → Undoes e.modifier
      → IsConfigured e.ops c
      → IsValid now c
      → WellFormed c.message_queue
      → d.config.protocol_header ≡ c.config.protocol_header
      → Takes c.local_seq_number c.remote_seq_number d
      → 0 < d.config.send_rate
      → before ≤ clock 0
      → IsValid before d
      → Arrives e clock c d × Settles e clock c d
  unfolding MessageQueue.receive_packet
  arrival e now before clock c d undo configured v w same may rate later vd =
      let ((c1, written), run, t) = write_body_lem e now c configured v in
      let (out, n, s, within) = t.payload in
      let m = modify_packet-Modified e written c1 t.long in
      let packet = (modify_packet e written c1).1 in
      let seq : byte_at packet 8 ≡ c.local_seq_number = m.same_bytes 8 (omega arith) ∙ t.seq_eq in
      let ack : byte_at packet 9 ≡ c.remote_seq_number = m.same_bytes 9 (omega arith) ∙ t.ack_eq in
      let (d', run', mine, seq', vd', left) =
        takes e packet before clock d m.still_long
          (same_header c.config d.config written packet same m.same_bytes
            ∙ has_header-id c.config written c.random_id t.sender)
          (omega (arith, seq, v.local_lt)) (omega (arith, ack, v.remote_lt))
          (subst (λ x. Takes x (byte_at packet 9) d) (sym seq)
            (subst (λ x. Takes c.local_seq_number x d) (sym ack) may))
          rate later vd in
      let told : Told packet (acknowledges c) d =
        All-map {P = Pending before}
          {Q = λ p.
            seq_was_acked p.seq (byte_at packet 9) (number_at packet 10)
            ≡ done (acknowledges c p.seq)}
          (λ p h.
            rw
              (
                m.same_bytes 9 (omega arith),
                m.same_bytes 10 (omega arith),
                m.same_bytes 11 (omega arith),
                m.same_bytes 12 (omega arith),
                m.same_bytes 13 (omega arith),
              )
              (t.acks p.seq h.1.0))
          d.sent_ack_queue vd.sent in
      (
        (
          c1,
          written,
          out,
          d',
          run,
          run',
          mine
              ∙ ap (λ p. inbox (MessageQueue.receive_packet p d.message_queue))
                  (ap (λ p. changed (e.modifier.incoming d.packet_modifier p).0 p) m.new_payload
                    ∙ undo c1.packet_modifier d.packet_modifier (drop packet_header_size written)
                    ∙ s.appended)
              ∙ ap (λ ms. inbox (receive_messages ms d.message_queue))
                  (messages_from_packet-serialize_all out (Sends-IsWellFormed out w s)),
          s.sends_i,
          s.sends_r,
          s.sends_o,
          seq' ∙ seq,
          vd',
        ),
        (c1, written, d', run, run', left (acknowledges c) told),
      )

  -- A packet that a connection writes and its modifier changes arrives at another connection: that
  -- one consumes it without a panic, takes its sequence number, and its receiving side is then as if
  -- the very messages that left the queues of the first had been received, in their order.
  -- Both connections satisfy their invariants and have the same protocol header; the configuration of
  -- the first makes sense (a u32 as the id, a send rate above 0, room for the header, quotas that fit
  -- in the rest) and its queued messages are well-formed (order id below 4096, payload below 64 KiB); `incoming` of the modifier undoes `outgoing`; the receiver takes a packet with these
  -- sequence numbers, its send rate is not 0, and the clock has not gone back.
  pub write_body-receive_packet :
      (e : Env F R M) (now before : ℕ) (clock : Clock) (c d : Connection F R M A)
      → Undoes e.modifier
      → IsConfigured e.ops c
      → IsValid now c
      → WellFormed c.message_queue
      → d.config.protocol_header ≡ c.config.protocol_header
      → Takes c.local_seq_number c.remote_seq_number d
      → 0 < d.config.send_rate
      → before ≤ clock 0
      → IsValid before d
      → Arrives e clock c d
  write_body-receive_packet e now before clock c d undo configured v w same may rate later vd =
      (arrival e now before clock c d undo configured v w same may rate later vd).0

  -- A packet that a connection writes settles the sent packets of the connection that it arrives at:
  -- exactly those still wait that it does not acknowledge and that were sent at most the drop threshold
  -- ago. It acknowledges the sequence number that the first connection has as the last one, which is 0
  -- also where nothing was received, and those that it received at most 32 behind that.
  -- Both connections satisfy their invariants and have the same protocol header; the configuration of
  -- the first makes sense (a u32 as the id, a send rate above 0, room for the header, quotas that fit
  -- in the rest) and its queued messages are well-formed (order id below 4096, payload below 64 KiB); `incoming` of the modifier undoes `outgoing`; the receiver takes a packet with these
  -- sequence numbers, its send rate is not 0, and the clock has not gone back.
  pub write_body-acknowledges :
      (e : Env F R M) (now before : ℕ) (clock : Clock) (c d : Connection F R M A)
      → Undoes e.modifier
      → IsConfigured e.ops c
      → IsValid now c
      → WellFormed c.message_queue
      → d.config.protocol_header ≡ c.config.protocol_header
      → Takes c.local_seq_number c.remote_seq_number d
      → 0 < d.config.send_rate
      → before ≤ clock 0
      → IsValid before d
      → Settles e clock c d
  write_body-acknowledges e now before clock c d undo configured v w same may rate later vd =
      (arrival e now before clock c d undo configured v w same may rate later vd).1
