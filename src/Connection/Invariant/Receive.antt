-- ===== src/Connection/Invariant/Receive.antt =====
-- src/shared/connection.rs: the loop of `receive_packet` over the sent packets.
use cobalt_rs.Common.{
  checked_div, ==_ne, ℕ, ◌+◌, ◌%◌, ◌^◌, ◌<◌, ◌≡◌, refl, sym, ap, subst, ◌∙◌, List, [], ◌∷◌, arith,
  length, All, ltb, Bool-cases, inl, inr, Option, none, some, Returns, given, after,
  checked_sub-Returns, drop, ◌==◌,
}
use cobalt_rs.MessageQueue.Frame.{Keeps, lost_packet-Keeps}
use cobalt_rs.Sequence.{seq_was_acked}
use cobalt_rs.Sequence.Acks.{seq_bit_index_lem}
use cobalt_rs.Traits.{Env}
use cobalt_rs.Connection.{
  Connection, SentPacketAck, PacketState, packet_header_size, push_event, wrapping_inc,
}
use cobalt_rs.Connection.Receive.{
  ack_packet, lose_payload, check_sent, check_all_sent, retain_unknown, is_unknown,
}
use cobalt_rs.Connection.Invariant.{SentBy, Pending, waiting}

seq_was_acked-Returns :
    (seq ack bits : ℕ)
    → seq < 256
    → ack < 256
    → Returns {0, 0} (seq_was_acked seq ack bits) (λ b. Unit)
unfolding seq_was_acked
seq_was_acked-Returns seq ack bits h k = elim (Bool-cases (seq == ack)) [
  | inl t ↦ rw t (given tt)
  | inr t ↦ rw (t, seq_bit_index_lem seq ack h k (ground arith)) (given tt)
]

checked_div-Returns : (a b : ℕ) → 0 < b → Returns {0, 0} (checked_div a b) (λ d. Unit)
checked_div-Returns a b h = rw (==_ne b 0 (omega arith)) (given tt)

length-retain :
    (p : SentPacketAck) (ps : List SentPacketAck)
    → length (retain_unknown (p ∷ ps)) ≡ waiting p + length (retain_unknown ps)
unfolding retain_unknown
length-retain p ps = elim (Bool-cases (is_unknown p.state)) [
  | inl t ↦ rw t (omega arith)
  | inr t ↦ rw t (omega arith)
]

module _ {F R M A : Type 0} where
  -- The loop over the sent packets changes counters, the round trip time, the message queue and the
  -- events.
  pub record Frame (c c' : Connection F R M A) : Type 0 where
    pub config_eq : c'.config ≡ c.config
    pub local_eq : c'.local_seq_number ≡ c.local_seq_number
    pub remote_eq : c'.remote_seq_number ≡ c.remote_seq_number
    pub time_eq : c'.last_receive_time ≡ c.last_receive_time
    pub acks_eq : c'.recv_ack_queue ≡ c.recv_ack_queue
    pub queue_keeps : Keeps c.message_queue c'.message_queue

  Frame-refl : (c : Connection F R M A) → Frame c c
  Frame-refl c = record {
    config_eq = refl;
    local_eq = refl;
    remote_eq = refl;
    time_eq = refl;
    acks_eq = refl;
    queue_keeps = record { keeps_config = refl; keeps_kinds = λ k. k };
  }

  Frame-trans : {c c' c'' : Connection F R M A} → Frame c c' → Frame c' c'' → Frame c c''
  Frame-trans s t = record {
    config_eq = t.config_eq ∙ s.config_eq;
    local_eq = t.local_eq ∙ s.local_eq;
    remote_eq = t.remote_eq ∙ s.remote_eq;
    time_eq = t.time_eq ∙ s.time_eq;
    acks_eq = t.acks_eq ∙ s.acks_eq;
    queue_keeps = record {
      keeps_config = t.queue_keeps.keeps_config ∙ s.queue_keeps.keeps_config;
      keeps_kinds = λ k. t.queue_keeps.keeps_kinds (s.queue_keeps.keeps_kinds k);
    };
  }

  -- A sent packet after its round: the same packet, which is counted as acknowledged or as lost
  -- where it does not wait any longer.
  record Round (p : SentPacketAck) (c : Connection F R M A) (p' : SentPacketAck)
      (c' : Connection F R M A) : Type 0 where
    seq_eq : p'.seq ≡ p.seq
    sent_eq : p'.time ≡ p.time
    frame : Frame c c'
    counted :
        (c'.acked_packets + c'.lost_packets + waiting p') % 2 ^ 32
        ≡ (c.acked_packets + c.lost_packets + 1) % 2 ^ 32

  lose_payload-Frame :
      (packet : Option (List ℕ)) (c : Connection F R M A) → Frame c (lose_payload packet c)
  unfolding lose_payload push_event
  lose_payload-Frame none c = Frame-refl c
  lose_payload-Frame (some packet) c = record {
    config_eq = refl;
    local_eq = refl;
    remote_eq = refl;
    time_eq = refl;
    acks_eq = refl;
    queue_keeps = lost_packet-Keeps (drop packet_header_size packet) c.message_queue;
  }

  lose_payload_counters :
      (packet : Option (List ℕ)) (c : Connection F R M A)
      → ((lose_payload packet c).acked_packets ≡ c.acked_packets)
        × ((lose_payload packet c).lost_packets ≡ c.lost_packets)
  unfolding lose_payload push_event
  lose_payload_counters none c = (refl, refl)
  lose_payload_counters (some packet) c = (refl, refl)

  ack-Round :
      (e : Env F R M) (delay : ℕ) (p : SentPacketAck) (c : Connection F R M A)
      → 0 < c.config.send_rate
      → Returns (ack_packet e delay p c) (λ r. Round p c r.0 r.1)
  unfolding ack_packet wrapping_inc
  ack-Round e delay p c rate = after (checked_div-Returns 1000 c.config.send_rate rate) (λ tick u.
      given (record {
        seq_eq = refl;
        sent_eq = refl;
        frame = record {
          config_eq = refl;
          local_eq = refl;
          remote_eq = refl;
          time_eq = refl;
          acks_eq = refl;
          queue_keeps = record { keeps_config = refl; keeps_kinds = λ k. k };
        };
        counted = omega arith;
      }))

  lost-Round :
      (p : SentPacketAck) (c : Connection F R M A)
      → Round p c
          (record p { state = PacketState.lost; packet = none })
          (lose_payload p.packet (record c { lost_packets = wrapping_inc c.lost_packets }))
  unfolding wrapping_inc
  lost-Round p c =
      let c' : Connection F R M A = record c { lost_packets = wrapping_inc c.lost_packets } in
      let f = lose_payload-Frame p.packet c' in
      let (a, l) = lose_payload_counters p.packet c' in
      record {
        seq_eq = refl;
        sent_eq = refl;
        frame = record {
          config_eq = f.config_eq;
          local_eq = f.local_eq;
          remote_eq = f.remote_eq;
          time_eq = f.time_eq;
          acks_eq = f.acks_eq;
          queue_keeps = record {
            keeps_config = f.queue_keeps.keeps_config;
            keeps_kinds = f.queue_keeps.keeps_kinds;
          };
        };
        counted = omega (arith, a, l);
      }

  -- One round returns where the sequence numbers are in range and the packet was sent before the
  -- last receipt.
  check_sent-Round :
      (e : Env F R M) (ack bits : ℕ) (p : SentPacketAck) (c : Connection F R M A)
      → 0 < c.config.send_rate
      → ack < 256
      → Pending c.last_receive_time p
      → Returns (check_sent e ack bits p c) (λ r. Round p c r.0 r.1)
  unfolding check_sent
  check_sent-Round e ack bits p c rate h pending =
      after (seq_was_acked-Returns p.seq ack bits pending.1.0 h) (λ was_acked u.
        after (checked_sub-Returns c.last_receive_time p.time pending.1.1) (λ delay d.
          elim (Bool-cases was_acked) [
            | inl t ↦ rw t (ack-Round e delay p c rate)
            | inr t ↦ elim (Bool-cases (ltb c.config.packet_drop_threshold delay)) [
              | inl l ↦ rw (t, l) (given (lost-Round p c))
              | inr l ↦
                  rw (t, l)
                    (given (record {
                      seq_eq = refl;
                      sent_eq = refl;
                      frame = Frame-refl c;
                      counted = rw pending.0 refl;
                    }))
            ]
          ]))

  -- All sent packets after the loop.
  pub record Rounds (ps : List SentPacketAck) (c : Connection F R M A) (ps' : List SentPacketAck)
      (c' : Connection F R M A) : Type 0 where
    pub all_frame : Frame c c'
    pub all_sent : All (SentBy c.last_receive_time) ps'
    pub all_counted :
        (c'.acked_packets + c'.lost_packets + length (retain_unknown ps')) % 2 ^ 32
        ≡ (c.acked_packets + c.lost_packets + length ps) % 2 ^ 32

  pub check_all_sent-Rounds :
      (e : Env F R M) (ack bits : ℕ) (ps : List SentPacketAck) (c : Connection F R M A)
      → 0 < c.config.send_rate
      → ack < 256
      → All (Pending c.last_receive_time) ps
      → Returns (check_all_sent e ack bits ps c) (λ r. Rounds ps c r.0 r.1)
  unfolding check_all_sent retain_unknown
  check_all_sent-Rounds e ack bits [] c rate h pending =
      given (record { all_frame = Frame-refl c; all_sent = tt; all_counted = refl })
  check_all_sent-Rounds e ack bits (p ∷ ps) c rate h pending =
      after (check_sent-Round e ack bits p c rate h pending.0) (λ one r.
        let same = r.frame in
        after
          (check_all_sent-Rounds e ack bits ps one.1
            (subst (λ x. 0 < x) (sym (ap (λ x. x.send_rate) same.config_eq)) rate) h
            (subst (λ t. All (Pending t) ps) (sym same.time_eq) pending.1))
          (λ rest rs. given (record {
            all_frame = Frame-trans same rs.all_frame;
            all_sent = (
              (omega (arith, r.seq_eq, pending.0.1.0), omega (arith, r.sent_eq, pending.0.1.1)),
              subst (λ t. All (SentBy t) rest.0) same.time_eq rs.all_sent,
            );
            all_counted = omega (arith, rs.all_counted, r.counted, length-retain one.0 rest.0);
          })))
