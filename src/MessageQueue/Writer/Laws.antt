-- ===== src/MessageQueue/Writer/Laws.antt =====
-- One queue written into a packet: what is taken, what it takes up, and that the loop ends.
use cobalt_rs.Common.{
  ℕ, zero, suc, ◌+◌, ◌-◌, ◌≤◌, ◌<◌, ◌≡◌, refl, sym, ap, ◌∙◌, ◌⊎◌, inl, inr, List, [], ◌∷◌, ◌++◌,
  true, false, ltb, length, done, arith, append-nil, append_assoc, Bool-cases, ltb→lt, All,
  length-append,
}
use cobalt_rs.Message.{Message, serialize, serialize_all, IsWellFormed}
use cobalt_rs.MessageQueue.Writer.{Written, required, write_message, write_loop, write_messages}

-- What the messages are counted for together.
abbrev pub cost : List Message → ℕ
cost [] = 0
cost (m ∷ ms) = required m + cost ms

pub cost-append : (xs ys : List Message) → cost (xs ++ ys) ≡ cost xs + cost ys
cost-append [] ys = omega arith
cost-append (x ∷ xs) ys = omega (arith, cost-append xs ys)

pub serialize_all-append :
    (xs ys : List Message) → serialize_all (xs ++ ys) ≡ serialize_all xs ++ serialize_all ys
serialize_all-append [] ys = refl
serialize_all-append (x ∷ xs) ys =
    ap (◌++◌ (serialize x)) (serialize_all-append xs ys)
    ∙ sym (append_assoc (serialize x) (serialize_all xs) (serialize_all ys))

-- Well-formed messages take up what they are counted for.
pub length-serialize_all :
    (ms : List Message) → All IsWellFormed ms → length (serialize_all ms) ≡ cost ms
unfolding serialize
length-serialize_all [] w = refl
length-serialize_all (m ∷ ms) w =
    omega (arith, length-append m.bytes (serialize_all ms), length-serialize_all ms w.1, w.0.exact)

-- The first message of the queue, if any, does not fit.
abbrev pub Blocked : ℕ → ℕ → List Message → Type 0
Blocked available written [] = Unit {0}
Blocked available written (m ∷ ms) = available < written + required m

-- `w` is the queue without its first messages `out`, which went into the packet.
pub record Wrote (queue : List Message) (packet : List ℕ) (written : ℕ) (w : Written)
    (out : List Message) : Type 0 where
  pub split : queue ≡ out ++ w.queue
  pub appended : w.packet ≡ packet ++ serialize_all out
  pub counted : w.written ≡ written + cost out

unfoldable pub took : Message → List Message → List ℕ → ℕ → Written
took m queue packet written = record {
  queue = queue;
  packet = packet ++ serialize m;
  written = written + required m;
  more = true;
}

unfoldable pub kept : List Message → List ℕ → ℕ → Written
kept queue packet written = record {
  queue = queue;
  packet = packet;
  written = written;
  more = false;
}

-- `write_message` takes the first message or leaves everything, because there is none or it does
-- not fit.
pub write_message_cases :
    (queue : List Message) (packet : List ℕ) (available written : ℕ)
    → written ≤ available
    → ((m : Message) × (rest : List Message) × (queue ≡ m ∷ rest)
        × (written + required m ≤ available)
        × (write_message queue packet available written ≡ done (took m rest packet written)))
      ⊎ (Blocked available written queue
          × (write_message queue packet available written ≡ done (kept queue packet written)))
unfolding write_message took kept
write_message_cases [] packet available written h = inr (tt, refl)
write_message_cases (m ∷ rest) packet available written h =
    elim (Bool-cases (ltb (available - written) (required m))) [
      | inl e ↦ inr (omega (arith, ltb→lt _ _ e), ground arith)
      | inr e ↦ inl (m, rest, refl, ground arith, ground arith)
    ]

pub took-Wrote :
    (m : Message) (rest : List Message) (packet : List ℕ) (written : ℕ)
    → Wrote (m ∷ rest) packet written (took m rest packet written) (m ∷ [])
unfolding took
took-Wrote m rest packet written = record {
  split = refl;
  appended = ap (◌++◌ packet) (sym (append-nil (serialize m)));
  counted = omega arith;
}

pub kept-Wrote :
    (queue : List Message) (packet : List ℕ) (written : ℕ)
    → Wrote queue packet written (kept queue packet written) []
unfolding kept
kept-Wrote queue packet written = record {
  split = refl;
  appended = sym (append-nil packet);
  counted = omega arith;
}

took_then :
    (m : Message) (rest : List Message) (packet : List ℕ) (written : ℕ) (w : Written)
    (out : List Message)
    → Wrote rest (packet ++ serialize m) (written + required m) w out
    → Wrote (m ∷ rest) packet written w (m ∷ out)
took_then m rest packet written w out h = record {
  split = ap (◌∷◌ m) h.split;
  appended = h.appended ∙ append_assoc packet (serialize m) (serialize_all out);
  counted = omega (arith, h.counted);
}

-- The loop ends, takes messages from the front, stays within `available`, and stops only where
-- the next message does not fit.
pub write_loop_lem :
    (fuel : ℕ) (queue : List Message) (packet : List ℕ) (available used : ℕ)
    → length queue < fuel
    → used ≤ available
    → (w : Written) × (out : List Message) × (write_loop fuel queue packet available used ≡ done w)
      × Wrote queue packet used w out
      × (w.written ≤ available)
      × Blocked available w.written w.queue
unfolding write_loop took kept
write_loop_lem zero queue packet available used f h = absurd (omega arith)
write_loop_lem (suc fuel) queue packet available used f h =
    elim (write_message_cases queue packet available used h) [
      | inl (m, rest, e, fits, step) ↦
          let (w, out, run, wrote, within, blocked) =
            write_loop_lem fuel rest (packet ++ serialize m) available (used + required m)
              (omega (arith, ap length e)) fits in
          (
            w,
            m ∷ out,
            rw step run,
            rw e (took_then m rest packet used w out wrote),
            within,
            blocked,
          )
      | inr (blocked, step) ↦
          (kept queue packet used, [], rw step refl, kept-Wrote queue packet used, h, blocked)
    ]

-- The same for `write_messages`, which counts from nothing against its quota.
pub write_messages_lem :
    (queue : List Message) (packet : List ℕ) (available written : ℕ)
    → (w : Written) × (out : List Message) × (write_messages queue packet available written
        ≡ done w)
      × Wrote queue packet written w out
      × (w.written ≤ written + available)
unfolding write_messages
write_messages_lem queue packet available written =
    let (w, out, run, wrote, within, blocked) =
      write_loop_lem (suc (length queue)) queue packet available 0 (omega arith) (omega arith) in
    (
      record w { written = written + w.written },
      out,
      rw run refl,
      record {
        split = wrote.split;
        appended = wrote.appended;
        counted = omega (arith, wrote.counted);
      },
      omega arith,
    )
