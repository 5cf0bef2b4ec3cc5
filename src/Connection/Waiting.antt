-- ===== src/Connection/Waiting.antt =====
-- src/shared/connection.rs: which of the sent packets still wait after a packet was received.
use cobalt_rs.Common.{
  ℕ, ◌-◌, ◌≡◌, refl, sym, ap, ap₂, ◌∙◌, List, [], ◌∷◌, Bool, true, false, not, ◌&&◌, ltb, All, done,
  returns, done-injective, if◌then◌else◌, checked_div, leb, none, panic, ◌>>=◌, All-map,
}
use cobalt_rs.Config.{Config}
use cobalt_rs.Sequence.{seq_was_acked}
use cobalt_rs.Traits.{Env}
use cobalt_rs.Connection.{
  Connection, SentPacketAck, PacketState, unknown, byte_at, push_event, wrapping_inc,
}
use cobalt_rs.Connection.Receive.{
  ack_packet, lose_payload, check_sent, check_all_sent, accept_packet, receive_payload,
  retain_unknown,
}
use cobalt_rs.Connection.Steady.{Steady, check_sent-Steady}
use cobalt_rs.Connection.Invariant.{Pending}
use cobalt_rs.Connection.Invariant.Write.{number_at}

-- The elements for which the test succeeds.
abbrev pub keep_if : {A : Type 0} → (A → Bool) → List A → List A
keep_if test [] = []
keep_if test (x ∷ xs) = if test x then x ∷ keep_if test xs else keep_if test xs

-- A packet that is not acknowledged and was sent at most `threshold` ago.
abbrev pub waits : ℕ → ℕ → (ℕ → Bool) → SentPacketAck → Bool
waits now threshold acked p = not (acked p.seq) && not (ltb threshold (now - p.time))

module _ {F R M A : Type 0} where
  abbrev timing : Connection F R M A → Config F × ℕ
  timing c = (c.config, c.last_receive_time)

  timing-Steady : Steady timing
  unfolding lose_payload push_event
  timing-Steady = record {
    on_ack = λ c n t. refl;
    on_loss = λ c n. refl;
    on_return = λ c packet. refl;
  }

  check_sent-waits :
      (e : Env F R M) (ack bits : ℕ) (p : SentPacketAck) (a : Bool) (ps : List SentPacketAck)
      (c : Connection F R M A) {r : SentPacketAck × Connection F R M A}
      → p.state ≡ unknown
      → seq_was_acked p.seq ack bits ≡ done a
      → check_sent e ack bits p c ≡ done r
      → retain_unknown (r.0 ∷ ps) ≡ (
          if not a && not (ltb c.config.packet_drop_threshold (c.last_receive_time - p.time))
          then p ∷ retain_unknown ps
          else retain_unknown ps)
  unfolding check_sent ack_packet retain_unknown
  check_sent-waits e ack bits p a ps c {r} fresh acked run =
      let run1 = rw (acked, check_sent) at run in in_time (leb p.time c.last_receive_time) run1
    where
      by_case :
          (a late : Bool) (delay : ℕ)
          → (if a
              then ack_packet e delay p c
              else if late
              then done (
                record p { state = PacketState.lost; packet = none },
                lose_payload p.packet (record c { lost_packets = wrapping_inc c.lost_packets }),
              )
              else done (p, c))
            ≡ done r
          → retain_unknown (r.0 ∷ ps)
            ≡ (if not a && not late then p ∷ retain_unknown ps else retain_unknown ps)
      by_case true late delay h =
          let (tick, _, last) = returns (checked_div 1000 c.config.send_rate) h in
          sym (ap (λ x. retain_unknown (x.0 ∷ ps)) (done-injective last))
      by_case false true delay h = sym (ap (λ x. retain_unknown (x.0 ∷ ps)) (done-injective h))
      by_case false false delay h =
          sym (ap (λ x. retain_unknown (x.0 ∷ ps)) (done-injective h)) ∙ rw fresh refl

      in_time :
          (ok : Bool)
          → ((if ok then done (c.last_receive_time - p.time) else panic) >>= (λ delay.
              if a
              then ack_packet e delay p c
              else if ltb c.config.packet_drop_threshold delay
              then done (
                record p { state = PacketState.lost; packet = none },
                lose_payload p.packet (record c { lost_packets = wrapping_inc c.lost_packets }),
              )
              else done (p, c)))
            ≡ done r
          → retain_unknown (r.0 ∷ ps) ≡ (
              if not a && not (ltb c.config.packet_drop_threshold (c.last_receive_time - p.time))
              then p ∷ retain_unknown ps
              else retain_unknown ps)
      in_time true h =
          by_case a (ltb c.config.packet_drop_threshold (c.last_receive_time - p.time))
            (c.last_receive_time - p.time) h
      in_time false h = cc

  check_all_sent-waits :
      (e : Env F R M) (ack bits now threshold : ℕ) (acked : ℕ → Bool) (ps : List SentPacketAck)
      (c : Connection F R M A) {r : List SentPacketAck × Connection F R M A}
      → All (λ p. p.state ≡ unknown) ps
      → All (λ p. seq_was_acked p.seq ack bits ≡ done (acked p.seq)) ps
      → c.last_receive_time ≡ now
      → c.config.packet_drop_threshold ≡ threshold
      → check_all_sent e ack bits ps c ≡ done r
      → retain_unknown r.0 ≡ keep_if (waits now threshold acked) ps
  unfolding check_all_sent retain_unknown
  check_all_sent-waits e ack bits now threshold acked [] c fresh told at thr run =
      sym (ap (λ x. retain_unknown x.0) (done-injective run))
  check_all_sent-waits e ack bits now threshold acked (p ∷ ps) c fresh told at thr run =
      let ((p1, c1), run1, rest) = returns (check_sent e ack bits p c) run in
      let ((ps2, c2), run2, last) = returns (check_all_sent e ack bits ps c1) rest in
      let same = check_sent-Steady timing timing-Steady e ack bits p c run1 in
      let others =
        check_all_sent-waits e ack bits now threshold acked ps c1 fresh.1 told.1
          (ap (λ t. t.1) same ∙ at) (ap (λ t. t.0.packet_drop_threshold) same ∙ thr) run2 in
      sym (ap (λ x. retain_unknown x.0) (done-injective last))
      ∙ check_sent-waits e ack bits p (acked p.seq) ps2 c fresh.0 told.0 run1
      ∙ ap₂
          (λ t n.
            if not (acked p.seq) && not (ltb t (n - p.time))
            then p ∷ retain_unknown ps2
            else retain_unknown ps2)
          thr at
      ∙ ap (λ qs. if waits now threshold acked p then p ∷ qs else qs) others

  -- What is left of the sent packets after a packet was accepted.
  pub accept_packet-waits :
      (e : Env F R M) (packet : List ℕ) (now before : ℕ) (acked : ℕ → Bool) (c : Connection F R M A)
      {c' : Connection F R M A}
      → All (Pending before) c.sent_ack_queue
      → All
          (λ p. seq_was_acked p.seq (byte_at packet 9) (number_at packet 10) ≡ done (acked p.seq))
          c.sent_ack_queue
      → accept_packet e packet now c ≡ done c'
      → c'.sent_ack_queue
        ≡ keep_if (waits now c.config.packet_drop_threshold acked) c.sent_ack_queue
  unfolding accept_packet receive_payload
  accept_packet-waits e packet now before acked c pending told run =
      let c1 : Connection F R M A = record c {
        last_receive_time = now;
        remote_seq_number = byte_at packet 8;
      } in
      let ((sent, c2), run1, last) =
        returns (check_all_sent e (byte_at packet 9) (number_at packet 10) c.sent_ack_queue c1)
          run in
      sym (ap (λ x. x.sent_ack_queue) (done-injective last))
      ∙ check_all_sent-waits e (byte_at packet 9) (number_at packet 10) now
          c.config.packet_drop_threshold acked c.sent_ack_queue c1
          (All-map {P = Pending before} (λ p h. h.0) c.sent_ack_queue pending) told refl refl run1
