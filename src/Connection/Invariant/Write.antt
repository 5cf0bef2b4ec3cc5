-- ===== src/Connection/Invariant/Write.antt =====
-- src/shared/connection.rs: the packet that `send_packet` writes, and what its receiver reads of it.
use cobalt_rs.Common.{
  ℕ, ◌+◌, ◌-◌, ◌%◌, ◌^◌, ◌≤◌, ◌<◌, ◌≡◌, refl, sym, ap, ap₂, subst, ◌∙◌, true, ◌&&◌, ◌||◌, List, [],
  ◌∷◌, ◌++◌, arith, length, drop, ltb, leb, some, done, Returns, given, done-injective, contains,
  ◌==◌, ==_iff,
}
use cobalt_rs.Config.{Config}
use cobalt_rs.Message.{Message, serialize_all}
use cobalt_rs.MessageQueue.{MessageQueue}
use cobalt_rs.MessageQueue.Sends.{Sends}
use cobalt_rs.MessageQueue.Sending.{send_packet_lem}
use cobalt_rs.Sequence.{ack_bitfield, seq_was_acked, u32_bytes, u32_from_bytes}
use cobalt_rs.Sequence.Acks.{behind, seq_was_acked-ack_bitfield, ack_bitfield-lt}
use cobalt_rs.Sequence.Bytes.{u32_from_bytes_lem}
use cobalt_rs.Traits.{Env}
use cobalt_rs.Connection.{
  Connection, packet_header_size, has_protocol_header, id_from_packet, byte_at,
}
use cobalt_rs.Connection.Send.{packet_prefix, write_body}
use cobalt_rs.Connection.Invariant.{IsConfigured, IsValid}

-- The four bytes from `i` on, as a number.
abbrev pub number_at : List ℕ → ℕ → ℕ
number_at packet i =
    u32_from_bytes (byte_at packet i) (byte_at packet (i + 1)) (byte_at packet (i + 2))
      (byte_at packet (i + 3))

equal_self : (n : ℕ) → (n == n) ≡ true
equal_self n = (==_iff n n).1 refl

module _ {F : Type 0} where
  Sends-drop :
      {q q' : MessageQueue F} {packet : List ℕ} {written : ℕ} (header : List ℕ) (out : List Message)
      → Sends q header 0 q' packet written out
      → drop (length header) (header ++ serialize_all out) ≡ serialize_all out
      → Sends q [] 0 q' (drop (length header) packet) written out
  Sends-drop header out s e = record {
    sends_i = s.sends_i;
    sends_r = s.sends_r;
    sends_o = s.sends_o;
    others = s.others;
    appended = ap (drop (length header)) s.appended ∙ e;
    counted = s.counted;
  }

  -- The id of the connection is read from any packet that begins with its prefix.
  pub id_from_packet-prefix :
      (config : Config F) (id : ℕ) (rest : List ℕ)
      → id < 2 ^ 32
      → id_from_packet config (packet_prefix config id ++ rest) ≡ some id
  unfolding id_from_packet packet_prefix u32_bytes byte_at has_protocol_header
  id_from_packet-prefix config id rest h =
      let long : leb 8 (length (packet_prefix config id ++ rest)) ≡ true = ground arith in
      rw
        (
          long,
          equal_self config.protocol_header.0,
          equal_self config.protocol_header.1,
          equal_self config.protocol_header.2,
          equal_self config.protocol_header.3,
        )
        (ap some (u32_from_bytes_lem id h))

module _ {F R M A : Type 0} where
  -- What a packet of `c` tells its receiver.
  pub record Tells (c c' : Connection F R M A) (packet : List ℕ) : Type 0 where
    pub sender : id_from_packet c.config packet ≡ some c.random_id
    pub long : packet_header_size ≤ length packet
    pub seq_eq : byte_at packet 8 ≡ c.local_seq_number
    pub ack_eq : byte_at packet 9 ≡ c.remote_seq_number
    pub acks :
        (seq : ℕ)
        → seq < 256
        → seq_was_acked seq (byte_at packet 9) (number_at packet 10)
          ≡ done (
              seq == c.remote_seq_number
              || (contains seq c.recv_ack_queue && ltb (behind seq c.remote_seq_number) 32))
    pub payload :
        (out : List Message) × (written : ℕ) × Sends c.message_queue [] 0 c'.message_queue
          (drop packet_header_size packet)
          written
          out
        × (written ≤ c.config.packet_max_size - packet_header_size)
    pub only_queue : c' ≡ record c { message_queue = c'.message_queue }

  abbrev header_of : Connection F R M A → ℕ → List ℕ
  header_of c bits =
      packet_prefix c.config c.random_id
      ++ (c.local_seq_number % 256) ∷ (c.remote_seq_number % 256) ∷ u32_bytes bits

  Tells-written :
      (c : Connection F R M A) (q' : MessageQueue F) (bits : ℕ) (packet : List ℕ) (written : ℕ)
      (out : List Message)
      → c.random_id < 2 ^ 32
      → bits < 2 ^ 32
      → c.local_seq_number < 256
      → c.remote_seq_number < 256
      → Sends c.message_queue (header_of c bits) 0 q' packet written out
      → written ≤ c.config.packet_max_size - packet_header_size
      → ((seq : ℕ)
          → seq < 256
          → seq_was_acked seq c.remote_seq_number bits
            ≡ done (
                seq == c.remote_seq_number
                || (contains seq c.recv_ack_queue && ltb (behind seq c.remote_seq_number) 32)))
      → Tells c (record c { message_queue = q' }) packet
  unfolding packet_prefix u32_bytes byte_at id_from_packet has_protocol_header
  Tells-written c q' bits packet written out id_lt bits_lt l r s within told = record {
    sender = rw s.appended (
        id_from_packet-prefix c.config c.random_id
          ((c.local_seq_number % 256) ∷ (c.remote_seq_number % 256) ∷ u32_bytes bits
            ++ serialize_all out)
          id_lt);
    long = rw s.appended (omega arith);
    seq_eq = rw s.appended (omega arith);
    ack_eq = rw s.appended (omega arith);
    acks = λ seq h.
        let small : c.remote_seq_number % 256 ≡ c.remote_seq_number = omega arith in
        rw s.appended
          (ap₂ (λ r b. seq_was_acked seq r b) small (u32_from_bytes_lem bits bits_lt) ∙ told seq h);
    payload = (out, written, Sends-drop (header_of c bits) out s refl, within);
    only_queue = refl;
  }

  pub write_body_lem :
      (e : Env F R M) (now : ℕ) (c : Connection F R M A)
      → IsConfigured e.ops c
      → IsValid now c
      → Returns (write_body e (packet_prefix c.config c.random_id) c) (λ r. Tells c r.0 r.1)
  unfolding write_body
  write_body_lem e now c configured v =
      let (bits, run, first) = tell 0 (omega arith) in
      let bits_lt =
        ack_bitfield-lt c.recv_ack_queue c.remote_seq_number 0 bits v.received v.remote_lt
          (omega arith) run in
      let room : leb packet_header_size c.config.packet_max_size ≡ true =
        ground (arith, configured.room) in
      let (q', packet, written, out, sent, s, within, full) =
        send_packet_lem e.ops c.message_queue (header_of c bits)
          (c.config.packet_max_size - packet_header_size) v.kinds configured.quotas in
      rw (run, room, sent)
        (given (
          Tells-written c q' bits packet written out configured.id_lt bits_lt v.local_lt v.remote_lt
            s within
            (λ seq h.
              let (bits', run', told) = tell seq h in
              subst
                (λ b.
                  seq_was_acked seq c.remote_seq_number b
                  ≡ done (
                      seq == c.remote_seq_number
                      || (contains seq c.recv_ack_queue
                          && ltb (behind seq c.remote_seq_number) 32)))
                (done-injective (sym run' ∙ run)) told)))
    where
      tell :
          (seq : ℕ)
          → seq < 256
          → (bits : ℕ) × (ack_bitfield c.recv_ack_queue c.remote_seq_number 0 ≡ done bits)
            × (seq_was_acked seq c.remote_seq_number bits
                ≡ done (
                    seq == c.remote_seq_number
                    || (contains seq c.recv_ack_queue && ltb (behind seq c.remote_seq_number) 32)))
      tell seq h =
          seq_was_acked-ack_bitfield c.recv_ack_queue c.remote_seq_number seq v.received v.remote_lt
            h
