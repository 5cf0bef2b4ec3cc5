-- ===== src/Connection/Invariant/Accept.antt =====
-- src/shared/connection.rs: `receive_packet`, the invariant, and the account of the sent packets.
use cobalt_rs.Common.{
  ℕ, zero, suc, ◌+◌, ◌%◌, ◌^◌, ◌≤◌, ◌<◌, ◌≡◌, refl, sym, ap, subst, ◌∙◌, List, [], ◌∷◌, arith,
  length, All, ltb, Bool-cases, inl, inr, Returns, given, after,
}
use cobalt_rs.MessageQueue.Frame.{receive_packet-Untouched, Untouched-KindsMatch}
use cobalt_rs.Sequence.{u32_from_bytes}
use cobalt_rs.Traits.{Clock, Env}
use cobalt_rs.Connection.{
  Connection, ConnectionState, connecting, failed_to_connect, closing, packet_header_size,
  has_protocol_header, byte_at, push_event,
}
use cobalt_rs.Connection.Receive.{
  receive_payload, accept_packet, receive_in_state, update_receive_state, receive_packet,
  has_closure_data,
}
use cobalt_rs.Connection.Invariant.{
  IsSeq, IsValid, Pending-mono, push_recv_ack-All, length-push_recv_ack, retain_unknown-Pending,
}
use cobalt_rs.Connection.Invariant.Receive.{check_all_sent-Rounds}

abbrev pub IsByte : ℕ → Type 0
IsByte b = b < 256

byte_at-IsByte : (i : ℕ) (packet : List ℕ) → All IsByte packet → byte_at packet i < 256
unfolding byte_at
byte_at-IsByte i [] h = omega arith
byte_at-IsByte zero (b ∷ packet) h = h.0
byte_at-IsByte (suc i) (b ∷ packet) h = byte_at-IsByte i packet h.1

module _ {F R M A : Type 0} where
  -- After a packet was accepted: the invariant, the configuration as before, and each packet that
  -- has left the queue of sent packets is counted.
  pub record Accepted (now : ℕ) (c c' : Connection F R M A) : Type 0 where
    pub valid : IsValid now c'
    pub same_config : c'.config ≡ c.config
    pub same_local : c'.local_seq_number ≡ c.local_seq_number
    pub account :
        (c'.acked_packets + c'.lost_packets + length c'.sent_ack_queue) % 2 ^ 32
        ≡ (c.acked_packets + c.lost_packets + length c.sent_ack_queue) % 2 ^ 32

  pub accept_packet-Accepted :
      (e : Env F R M) (packet : List ℕ) (before now : ℕ) (c : Connection F R M A)
      → 0 < c.config.send_rate
      → byte_at packet 8 < 256
      → byte_at packet 9 < 256
      → before ≤ now
      → IsValid before c
      → Returns (accept_packet e packet now c) (λ c'. Accepted now c c')
  unfolding accept_packet receive_payload
  accept_packet-Accepted e packet before now c rate seq_lt ack_lt later v =
      after
        (check_all_sent-Rounds e (byte_at packet 9)
          (u32_from_bytes (byte_at packet 10) (byte_at packet 11) (byte_at packet 12)
            (byte_at packet 13))
          c.sent_ack_queue c1 rate ack_lt (Pending-mono c.sent_ack_queue later v.sent))
        (λ r rs. given (record {
          valid = record {
            local_lt = subst IsSeq (sym rs.all_frame.local_eq) v.local_lt;
            remote_lt = subst IsSeq (sym rs.all_frame.remote_eq) seq_lt;
            received =
                push_recv_ack-All _ _ (subst IsSeq (sym rs.all_frame.remote_eq) seq_lt)
                  (subst (All IsSeq) (sym rs.all_frame.acks_eq) v.received);
            acks_le =
                length-push_recv_ack _ _ (omega (arith, ap length rs.all_frame.acks_eq, v.acks_le));
            sent = retain_unknown-Pending now r.0 rs.all_sent;
            kinds =
                Untouched-KindsMatch (receive_packet-Untouched _ _)
                  (rs.all_frame.queue_keeps.keeps_kinds v.kinds);
          };
          same_config = rs.all_frame.config_eq;
          same_local = rs.all_frame.local_eq;
          account = rs.all_counted;
        }))
    where
      c1 : Connection F R M A
      c1 = record c { last_receive_time = now; remote_seq_number = byte_at packet 8 }

  -- An accepted packet of bytes is worked off without a panic, where the send rate is not 0, the
  -- invariant holds and the clock has not gone back. The invariant is kept, and modulo the width of
  -- the counters no sent packet is counted twice or gets lost from the account: those that are
  -- acknowledged, lost and still waiting remain as many together as before.
  pub accept_packet_lem :
      (e : Env F R M) (packet : List ℕ) (before now : ℕ) (c : Connection F R M A)
      → 0 < c.config.send_rate
      → All IsByte packet
      → before ≤ now
      → IsValid before c
      → Returns (accept_packet e packet now c) (λ c'. Accepted now c c')
  accept_packet_lem e packet before now c rate bytes later v =
      accept_packet-Accepted e packet before now c rate (byte_at-IsByte 8 packet bytes)
        (byte_at-IsByte 9 packet bytes) later v

  -- A change of state, events and the count of lost packets.
  pub record Kept (c c' : Connection F R M A) : Type 0 where
    pub kept_config : c'.config ≡ c.config
    pub kept_queue : c'.message_queue ≡ c.message_queue
    pub kept_id : c'.random_id ≡ c.random_id
    pub kept_valid : (now : ℕ) → IsValid now c → IsValid now c'

  pub IsValid-mono :
      {before now : ℕ} (c : Connection F R M A) → before ≤ now → IsValid before c → IsValid now c
  IsValid-mono c h v = record {
    local_lt = v.local_lt;
    remote_lt = v.remote_lt;
    received = v.received;
    acks_le = v.acks_le;
    sent = Pending-mono c.sent_ack_queue h v.sent;
    kinds = v.kinds;
  }

  pub receive_in_state-Kept :
      (s : ConnectionState) (packet : List ℕ) (c : Connection F R M A)
      → Kept c (receive_in_state s packet c).0
  unfolding receive_in_state push_event
  receive_in_state-Kept ConnectionState.lost packet c = record {
    kept_config = refl;
    kept_queue = refl;
    kept_id = refl;
    kept_valid = λ now v. v;
  }
  receive_in_state-Kept ConnectionState.closed packet c = record {
    kept_config = refl;
    kept_queue = refl;
    kept_id = refl;
    kept_valid = λ now v. v;
  }
  receive_in_state-Kept failed_to_connect packet c = record {
    kept_config = refl;
    kept_queue = refl;
    kept_id = refl;
    kept_valid = λ now v. v;
  }
  receive_in_state-Kept closing packet c = record {
    kept_config = refl;
    kept_queue = refl;
    kept_id = refl;
    kept_valid = λ now v. v;
  }
  receive_in_state-Kept connecting packet c = record {
    kept_config = refl;
    kept_queue = refl;
    kept_id = refl;
    kept_valid = λ now v. record {
      local_lt = v.local_lt;
      remote_lt = v.remote_lt;
      received = v.received;
      acks_le = v.acks_le;
      sent = v.sent;
      kinds = v.kinds;
    };
  }
  receive_in_state-Kept ConnectionState.connected packet c =
      elim (Bool-cases (has_closure_data packet)) [
        | inl t ↦ rw t (record {
          kept_config = refl;
          kept_queue = refl;
          kept_id = refl;
          kept_valid = λ now v. record {
            local_lt = v.local_lt;
            remote_lt = v.remote_lt;
            received = v.received;
            acks_le = v.acks_le;
            sent = v.sent;
            kinds = v.kinds;
          };
        })
        | inr t ↦ rw t (record {
          kept_config = refl;
          kept_queue = refl;
          kept_id = refl;
          kept_valid = λ now v. v;
        })
      ]

  update_receive_state-Kept :
      (packet : List ℕ) (c : Connection F R M A) → Kept c (update_receive_state packet c).0
  unfolding update_receive_state
  update_receive_state-Kept packet c = elim (Bool-cases (has_protocol_header c.config packet)) [
    | inl t ↦ rw t (receive_in_state-Kept c.state packet c)
    | inr t ↦
        rw t (record {
          kept_config = refl;
          kept_queue = refl;
          kept_id = refl;
          kept_valid = λ now v. v;
        })
  ]

  -- Any packet of bytes is worked off without a panic, and keeps the invariant and the
  -- configuration, where the send rate is not 0 and the clock has not gone back since the packets
  -- were sent that still wait for an acknowledgement.
  pub receive_packet_lem :
      (e : Env F R M) (packet : List ℕ) (before : ℕ) (clock : Clock) (c : Connection F R M A)
      → 0 < c.config.send_rate
      → All IsByte packet
      → before ≤ clock 0
      → IsValid before c
      → Returns
          (receive_packet e packet clock c)
          (λ r. IsValid (clock 0) r.0 × (r.0.config ≡ c.config))
  unfolding receive_packet
  receive_packet_lem e packet before clock c rate bytes later v =
      elim (Bool-cases (ltb (length packet) packet_header_size)) [
        | inl t ↦ rw t (given (IsValid-mono c later v, refl))
        | inr t ↦ elim (Bool-cases (update_receive_state packet c).1) [
          | inl u ↦
              rw (t, u)
                (after
                  (accept_packet_lem e packet before (clock 0) c1
                    (subst (λ x. 0 < x) (sym (ap (λ x. x.send_rate) kept.kept_config)) rate) bytes
                    later (kept.kept_valid before v))
                  (λ c2 a. given (a.valid, a.same_config ∙ kept.kept_config)))
          | inr u ↦
              rw (t, u) (given (IsValid-mono c1 later (kept.kept_valid before v), kept.kept_config))
        ]
      ]
    where
      c1 : Connection F R M A
      c1 = (update_receive_state packet c).0

      kept : Kept c c1
      kept = update_receive_state-Kept packet c
