-- ===== src/MessageQueue/Sending.antt =====
-- `send_packet`: the quotas, then the rest of the packet message by message.
use cobalt_rs.Common.{
  ℕ, zero, suc, ◌+◌, ◌≤◌, ◌<◌, ◌≡◌, refl, sym, ap, subst, ◌∙◌, inl, inr, List, [], ◌∷◌, ◌++◌, Bool,
  true, false, ◌||◌, arith, length, done, Bool-cases,
}
use cobalt_rs.Config.{FloatOps}
use cobalt_rs.Message.{Message}
use cobalt_rs.MessageQueue.{MessageQueue, queued, quota_bytes, fill_round, fill_loop, send_packet}
use cobalt_rs.MessageQueue.Writer.{Written, write_message}
use cobalt_rs.MessageQueue.Writer.Laws.{
  Wrote, Blocked, took, kept, took-Wrote, kept-Wrote, write_message_cases, write_messages_lem,
}
use cobalt_rs.MessageQueue.Sends.{
  KindsMatch, Sends, Sends-trans, Wrote-Sends_i, Wrote-Sends_r, Wrote-Sends_o, KindsMatch-Sends,
}

-- What one call of `write_message` did.
record Step (queue : List Message) (packet : List ℕ) (available written : ℕ) (w : Written)
    (out : List Message) : Type 0 where
  wrote : Wrote queue packet written w out
  within : w.written ≤ available
  shrinks : length w.queue ≤ length queue
  moved : w.more ≡ true → length w.queue < length queue
  ended : w.more ≡ false → (w.written ≡ written) × Blocked available w.written w.queue

write_message-Step :
    (queue : List Message) (packet : List ℕ) (available written : ℕ)
    → written ≤ available
    → (w : Written) × (out : List Message) × (write_message queue packet available written ≡ done w)
      × Step queue packet available written w out
unfolding took kept
write_message-Step queue packet available written h =
    elim (write_message_cases queue packet available written h) [
      | inl (m, rest, e, fits, run) ↦ (
        took m rest packet written,
        m ∷ [],
        run,
        record {
          wrote = rw e (took-Wrote m rest packet written);
          within = fits;
          shrinks = omega (arith, ap length e);
          moved = λ _. omega (arith, ap length e);
          ended = λ x. cc;
        },
      )
      | inr (blocked, run) ↦ (
        kept queue packet written,
        [],
        run,
        record {
          wrote = kept-Wrote queue packet written;
          within = h;
          shrinks = omega arith;
          moved = λ x. cc;
          ended = λ _. (refl, blocked);
        },
      )
    ]

none_more : (a b c : Bool) → (a || b || c) ≡ false → (a ≡ false) × (b ≡ false) × (c ≡ false)
none_more a b c e = (ground arith, ground arith, ground arith)

module _ {F : Type 0} where
  -- No queue has a first message that fits into what is left.
  pub record Full (available written : ℕ) (q : MessageQueue F) : Type 0 where
    pub full_i : Blocked available written q.i_queue
    pub full_r : Blocked available written q.r_queue
    pub full_o : Blocked available written q.o_queue

  moved_one :
      (q : MessageQueue F) {p p' p'' : List ℕ} (available : ℕ) {n n' n'' : ℕ} (i r o : Written)
      {outi outr outo : List Message}
      → Step q.i_queue p available n i outi
      → Step q.r_queue p' available n' r outr
      → Step q.o_queue p'' available n'' o outo
      → (i.more || r.more || o.more) ≡ true
      → length i.queue + length r.queue + length o.queue < queued q
  moved_one q available i r o si sr so e = ground (arith, si.moved, sr.moved, so.moved)

  ended_all :
      (q : MessageQueue F) {p p' p'' : List ℕ} (available : ℕ) {n : ℕ} (i r o : Written)
      {outi outr outo : List Message}
      → Step q.i_queue p available n i outi
      → Step q.r_queue p' available i.written r outr
      → Step q.o_queue p'' available r.written o outo
      → (i.more || r.more || o.more) ≡ false
      → Full available o.written
          (record q { i_queue = i.queue; r_queue = r.queue; o_queue = o.queue })
  ended_all q available i r o si sr so e =
      let (ei, er, eo) = none_more i.more r.more o.more e in
      let (wr, br) = sr.ended er in
      let (wo, bo) = so.ended eo in
      record {
        full_i = subst (λ n. Blocked available n i.queue) (sym (wo ∙ wr)) ((si.ended ei).1);
        full_r = subst (λ n. Blocked available n r.queue) (sym wo) br;
        full_o = bo;
      }

  record Round (available : ℕ) (q : MessageQueue F) (packet : List ℕ) (written : ℕ)
      (q' : MessageQueue F) (packet' : List ℕ) (written' : ℕ) (more : Bool) (out : List Message)
      : Type 0 where
    sends : Sends q packet written q' packet' written' out
    within : written' ≤ available
    moved : more ≡ true → queued q' < queued q
    ended : more ≡ false → Full available written' q'

  fill_round_lem :
      (available : ℕ) (q : MessageQueue F) (packet : List ℕ) (written : ℕ)
      → KindsMatch q
      → written ≤ available
      → (q' : MessageQueue F) × (packet' : List ℕ) × (written' : ℕ) × (more : Bool) × (out : List
          Message)
        × (fill_round available q packet written ≡ done (q', packet', written', more))
        × Round available q packet written q' packet' written' more out
  unfolding fill_round
  fill_round_lem available q packet written k h =
      let (i, outi, runi, si) = write_message-Step q.i_queue packet available written h in
      let (r, outr, runr, sr) =
        write_message-Step q.r_queue i.packet available i.written si.within in
      let (o, outo, runo, so) =
        write_message-Step q.o_queue r.packet available r.written sr.within in
      let q1 : MessageQueue F = record q { i_queue = i.queue } in
      let q2 : MessageQueue F = record q1 { r_queue = r.queue } in
      let s1 = Wrote-Sends_i q i outi k si.wrote in
      let k1 = KindsMatch-Sends outi k s1 in
      let s2 = Wrote-Sends_r q1 r outr k1 sr.wrote in
      let s3 = Wrote-Sends_o q2 o outo (KindsMatch-Sends outr k1 s2) so.wrote in
      (
        record q { i_queue = i.queue; r_queue = r.queue; o_queue = o.queue },
        o.packet,
        o.written,
        (i.more || r.more || o.more),
        (outi ++ outr) ++ outo,
        rw (runi, runr, runo) refl,
        record {
          sends = Sends-trans (outi ++ outr) outo (Sends-trans outi outr s1 s2) s3;
          within = so.within;
          moved = moved_one q available i r o si sr so;
          ended = ended_all q available i r o si sr so;
        },
      )

  -- The loop ends, as a pass that does not end it takes a message.
  fill_loop_lem :
      (fuel available : ℕ) (q : MessageQueue F) (packet : List ℕ) (written : ℕ)
      → KindsMatch q
      → written ≤ available
      → queued q < fuel
      → (q' : MessageQueue F) × (packet' : List ℕ) × (written' : ℕ) × (out : List Message)
        × (fill_loop fuel available q packet written ≡ done (q', packet'))
        × Sends q packet written q' packet' written' out
        × (written' ≤ available)
        × Full available written' q'
  unfolding fill_loop
  fill_loop_lem zero available q packet written k h f = absurd (omega arith)
  fill_loop_lem (suc fuel) available q packet written k h f =
      let (q1, p1, w1, more, out, run, r) = fill_round_lem available q packet written k h in
      elim (Bool-cases more) [
        | inl e ↦
            let (q2, p2, w2, out2, run2, s2, within2, full2) =
              fill_loop_lem fuel available q1 p1 w1 (KindsMatch-Sends out k r.sends) r.within
                (omega (arith, r.moved e)) in
            (
              q2,
              p2,
              w2,
              out ++ out2,
              rw (run, e) run2,
              Sends-trans out out2 r.sends s2,
              within2,
              full2,
            )
        | inr e ↦ (q1, p1, w1, out, rw (run, e) refl, r.sends, r.within, r.ended e)
      ]

  -- The quotas together leave no less than nothing of the packet.
  abbrev pub QuotasFit : FloatOps F → MessageQueue F → ℕ → Type 0
  QuotasFit ops q available =
      quota_bytes ops available q.config.message_quota_instant
        + quota_bytes ops available q.config.message_quota_reliable
        + quota_bytes ops available q.config.message_quota_ordered
      ≤ available

  abbrev pub FillsPacket : FloatOps F → MessageQueue F → List ℕ → ℕ → Type 0
  FillsPacket ops q packet available =
      (q' : MessageQueue F) × (packet' : List ℕ) × (written : ℕ) × (out : List Message)
      × (send_packet ops q packet available ≡ done (q', packet'))
      × Sends q packet 0 q' packet' written out
      × (written ≤ available)
      × Full available written q'

  -- Where the quotas together fit the packet, `send_packet` returns. It takes messages from the
  -- front of each queue, appends them serialized to the packet, counts no more than `available`
  -- bytes for them, leaves all else of the queue as it was, and stops only where no queue has a
  -- first message that still fits.
  pub send_packet_lem :
      (ops : FloatOps F) (q : MessageQueue F) (packet : List ℕ) (available : ℕ)
      → KindsMatch q
      → QuotasFit ops q available
      → FillsPacket ops q packet available
  unfolding send_packet
  send_packet_lem ops q packet available k h =
      let (i, outi, runi, si, wi) =
        write_messages_lem q.i_queue packet
          (quota_bytes ops available q.config.message_quota_instant) 0 in
      let (r, outr, runr, sr, wr) =
        write_messages_lem q.r_queue i.packet
          (quota_bytes ops available q.config.message_quota_reliable) i.written in
      let (o, outo, runo, so, wo) =
        write_messages_lem q.o_queue r.packet
          (quota_bytes ops available q.config.message_quota_ordered) r.written in
      let q1 : MessageQueue F = record q { i_queue = i.queue } in
      let q2 : MessageQueue F = record q1 { r_queue = r.queue } in
      let q3 : MessageQueue F = record q2 { o_queue = o.queue } in
      let s1 = Wrote-Sends_i q i outi k si in
      let k1 = KindsMatch-Sends outi k s1 in
      let s2 = Wrote-Sends_r q1 r outr k1 sr in
      let k2 = KindsMatch-Sends outr k1 s2 in
      let s3 = Wrote-Sends_o q2 o outo k2 so in
      let quotas = Sends-trans (outi ++ outr) outo (Sends-trans outi outr s1 s2) s3 in
      let (q4, p4, w4, out4, run4, s4, within, full) =
        fill_loop_lem (suc (queued q3)) available q3 o.packet o.written
          (KindsMatch-Sends outo k2 s3) (omega arith) (omega arith) in
      (
        q4,
        p4,
        w4,
        ((outi ++ outr) ++ outo) ++ out4,
        rw (runi, runr, runo) run4,
        Sends-trans ((outi ++ outr) ++ outo) out4 quotas s4,
        within,
        full,
      )
