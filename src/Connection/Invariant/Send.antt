-- ===== src/Connection/Invariant/Send.antt =====
-- src/shared/connection.rs: `send_packet` and the invariant.
use cobalt_rs.Common.{
  ℕ, ◌+◌, ◌-◌, ◌^◌, ◌≤◌, ◌<◌, ◌≡◌, refl, sym, ap, subst, ◌∙◌, Bool, true, false, List, drop,
  All-append, Bool-cases, Option-cases, inl, inr, Returns, given, after,
}
use cobalt_rs.Config.{FloatOps}
use cobalt_rs.MessageQueue.{dismiss}
use cobalt_rs.MessageQueue.Sending.{QuotasFit}
use cobalt_rs.MessageQueue.Sends.{KindsMatch-Sends}
use cobalt_rs.Traits.{Clock, Env, Socket}
use cobalt_rs.Connection.{
  Connection, ConnectionState, connecting, failed_to_connect, closing, packet_header_size,
}
use cobalt_rs.Connection.Send.{
  send_ack_required, packet_prefix, write_body, write_packet, modify_packet, record_sent, hand_over,
  emit_packet, update_send_state, update_congestion, send_packet,
}
use cobalt_rs.Connection.Invariant.{IsConfigured, IsValid, Pending, next_seq_number-lt}
use cobalt_rs.Connection.Invariant.Accept.{Kept, IsValid-mono}
use cobalt_rs.Connection.Invariant.Write.{write_body_lem}
use cobalt_rs.Connection.Invariant.Update.{send_in_state-Kept, update_congestion-Kept}

module _ {F R M A : Type 0} where
  record_sent-IsValid :
      (clock : Clock) (sent : Bool) (packet : List ℕ) (now : ℕ) (c : Connection F R M A)
      → clock 3 ≤ now
      → IsValid now c
      → IsValid now (record_sent clock sent packet c)
  unfolding record_sent dismiss
  record_sent-IsValid clock sent packet now c h v = record {
    local_lt = next_seq_number-lt c.local_seq_number v.local_lt;
    remote_lt = v.remote_lt;
    received = v.received;
    acks_le = v.acks_le;
    sent = elim (Bool-cases (send_ack_required c.local_seq_number c.sent_ack_queue)) [
      | inl t ↦
          rw t (All-append (Pending now) c.sent_ack_queue _ v.sent ((refl, (v.local_lt, h)), tt))
      | inr t ↦ rw t v.sent
    ];
    kinds = record { all_i = v.kinds.all_i; all_r = v.kinds.all_r; all_o = v.kinds.all_o };
  }

  IsConfigured-Kept :
      (o : FloatOps F) {c c' : Connection F R M A}
      → Kept c c'
      → IsConfigured o c
      → IsConfigured o c'
  IsConfigured-Kept o {c} {c'} k v = record {
    id_lt = subst (λ x. x < 2 ^ 32) (sym k.kept_id) v.id_lt;
    rate = subst (λ x. 0 < x.send_rate) (sym k.kept_config) v.rate;
    room = subst (λ x. packet_header_size ≤ x.packet_max_size) (sym k.kept_config) v.room;
    quotas =
        subst (λ q. QuotasFit o q (c'.config.packet_max_size - packet_header_size))
          (sym k.kept_queue)
          (subst (λ x. QuotasFit o c.message_queue (x.packet_max_size - packet_header_size))
            (sym k.kept_config) v.quotas);
  }

  -- A packet, and a connection that differs in its message queue.
  record Written (now : ℕ) (c c' : Connection F R M A) : Type 0 where
    valid : IsValid now c'
    same_queue : c'.message_queue.config ≡ c.message_queue.config

  write_body_written :
      (e : Env F R M) (now : ℕ) (c : Connection F R M A)
      → IsConfigured e.ops c
      → IsValid now c
      → Returns (write_body e (packet_prefix c.config c.random_id) c) (λ r. Written now c r.0)
  write_body_written e now c configured v =
      let (r, run, tells) = write_body_lem e now c configured v in
      let (out, written, sends, within) = tells.payload in
      (
        r,
        run,
        record {
          valid = subst (IsValid now) (sym tells.only_queue) (record {
            local_lt = v.local_lt;
            remote_lt = v.remote_lt;
            received = v.received;
            acks_le = v.acks_le;
            sent = v.sent;
            kinds = KindsMatch-Sends out v.kinds sends;
          });
          same_queue = ap (λ q. q.config) sends.others;
        },
      )

  write_packet_written :
      (e : Env F R M) (s : ConnectionState) (now : ℕ) (c : Connection F R M A)
      → IsConfigured e.ops c
      → IsValid now c
      → Returns (write_packet e s c) (λ r. Written now c r.0)
  unfolding write_packet
  write_packet_written e closing now c configured v =
      given (record { valid = v; same_queue = refl })
  write_packet_written e connecting now c configured v = write_body_written e now c configured v
  write_packet_written e ConnectionState.connected now c configured v =
      write_body_written e now c configured v
  write_packet_written e ConnectionState.lost now c configured v =
      write_body_written e now c configured v
  write_packet_written e ConnectionState.closed now c configured v =
      write_body_written e now c configured v
  write_packet_written e failed_to_connect now c configured v =
      write_body_written e now c configured v

  modify_packet-Written :
      (e : Env F R M) (packet : List ℕ) (now : ℕ) (c : Connection F R M A)
      → IsValid now c
      → Written now c (modify_packet e packet c).0
  unfolding modify_packet
  modify_packet-Written e packet now c v =
      elim (Option-cases
        (e.modifier.outgoing c.packet_modifier (drop packet_header_size packet)).0) [
          | inl t ↦ rw (t, modify_packet) (modified v)
          | inr (payload, t) ↦ rw (t, modify_packet) (modified v)
        ]
    where
      modified : {m : M} → IsValid now c → Written now c (record c { packet_modifier = m })
      modified v = record {
        valid = record {
          local_lt = v.local_lt;
          remote_lt = v.remote_lt;
          received = v.received;
          acks_le = v.acks_le;
          sent = v.sent;
          kinds = v.kinds;
        };
        same_queue = refl;
      }

  hand_over-IsValid :
      {S : Type 0} (net : Socket S A) (socket : S) (addr : A) (clock : Clock) (packet : List ℕ)
      (now : ℕ) (c : Connection F R M A)
      → clock 3 ≤ now
      → IsValid now c
      → IsValid now (hand_over net socket addr clock packet c).0
  unfolding hand_over
  hand_over-IsValid net socket addr clock packet now c h v =
      elim (Option-cases (net.send_to socket packet addr).0) [
        | inl t ↦ rw (t, hand_over) (record_sent-IsValid clock false packet now c h v)
        | inr (n, t) ↦ rw (t, hand_over) (record_sent-IsValid clock true packet now c h v)
      ]

  hand_over-config :
      {S : Type 0} (net : Socket S A) (socket : S) (addr : A) (clock : Clock) (packet : List ℕ)
      (c : Connection F R M A)
      → (hand_over net socket addr clock packet c).0.message_queue.config ≡ c.message_queue.config
  unfolding hand_over record_sent dismiss
  hand_over-config net socket addr clock packet c =
      elim (Option-cases (net.send_to socket packet addr).0) [
        | inl t ↦ rw (t, hand_over) refl
        | inr (n, t) ↦ rw (t, hand_over) refl
      ]

  emit_packet-Returns :
      {S : Type 0} (e : Env F R M) (net : Socket S A) (socket : S) (addr : A) (clock : Clock)
      (now : ℕ) (c : Connection F R M A)
      → clock 3 ≤ now
      → IsConfigured e.ops c
      → IsValid now c
      → Returns
          (emit_packet e net socket addr clock c)
          (λ r. IsValid now r.0 × (r.0.message_queue.config ≡ c.message_queue.config))
  unfolding emit_packet
  emit_packet-Returns e net socket addr clock now c h configured v =
      after (write_packet_written e c.state now c configured v) (λ r w.
        let m = modify_packet-Written e r.1 now r.0 w.valid in
        given (
          hand_over-IsValid net socket addr clock _ now _ h m.valid,
          hand_over-config net socket addr clock _ _ ∙ m.same_queue ∙ w.same_queue,
        ))

  pub send_packet-IsValid :
      {S : Type 0} (e : Env F R M) (net : Socket S A) (socket : S) (addr : A) (clock : Clock)
      (before now : ℕ) (c : Connection F R M A)
      → before ≤ now
      → clock 3 ≤ now
      → IsConfigured e.ops c
      → IsValid before c
      → Returns
          (send_packet e net socket addr clock c)
          (λ r. IsValid now r.0 × (r.0.message_queue.config ≡ c.message_queue.config))
  unfolding send_packet update_send_state
  send_packet-IsValid {S} e net socket addr clock before now c later h configured v =
      elim (Bool-cases (update_send_state clock c).1) [
        | inl t ↦ elim (Bool-cases (e.limiter.should_send c2.rate_limiter)) [
          | inl u ↦
              rw (t, u)
                (let (x, run, w) =
                    emit_packet-Returns e net socket addr clock now c2 h
                      (IsConfigured-Kept e.ops k2 (IsConfigured-Kept e.ops k1 configured)) v2 in
                  (x, run, (w.0, w.1 ∙ ap (λ q. q.config) (k2.kept_queue ∙ k1.kept_queue))))
          | inr u ↦ rw (t, u) (given (v2, ap (λ q. q.config) (k2.kept_queue ∙ k1.kept_queue)))
        ]
        | inr t ↦ rw t (given (v1, ap (λ q. q.config) k1.kept_queue))
      ]
    where
      c1 : Connection F R M A
      c1 = (update_send_state clock c).0

      c2 : Connection F R M A
      c2 = update_congestion e (λ i. clock (i + 4)) c1

      k1 : Kept c c1
      k1 = send_in_state-Kept c.state (clock 0 - c.last_receive_time) (clock 1 - c.last_send_time) c

      k2 : Kept c1 c2
      k2 = update_congestion-Kept e (λ i. clock (i + 4)) c1

      v1 : IsValid now c1
      v1 = k1.kept_valid now (IsValid-mono c later v)

      v2 : IsValid now c2
      v2 = k2.kept_valid now v1

  -- Sending returns, and keeps the invariant, where the configuration makes sense and the clock has
  -- not gone back.
  pub send_packet_returns :
      {S : Type 0} (e : Env F R M) (net : Socket S A) (socket : S) (addr : A) (clock : Clock)
      (before now : ℕ) (c : Connection F R M A)
      → before ≤ now
      → clock 3 ≤ now
      → IsConfigured e.ops c
      → IsValid before c
      → Returns (send_packet e net socket addr clock c) (λ r. IsValid now r.0)
  send_packet_returns e net socket addr clock before now c later h configured v =
      let (r, run, w) =
        send_packet-IsValid e net socket addr clock before now c later h configured v in
      (r, run, w.0)
