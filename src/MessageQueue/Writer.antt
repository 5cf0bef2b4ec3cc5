-- ===== src/MessageQueue/Writer.antt =====
-- src/shared/message_queue.rs: `write_message` and `write_messages`. What they change through
-- `&mut` is returned.
pub mod Laws
use cobalt_rs.Common.{
  ℕ, zero, suc, ◌+◌, List, [], ◌∷◌, ◌++◌, Bool, true, false, ltb, if◌then◌else◌, length, Outcome,
  done, stuck, checked_sub, ◌>>=◌,
}
use cobalt_rs.Message.{Message, serialize, message_header_bytes}

pub record Written : Type 0 where
  pub queue : List Message
  pub packet : List ℕ
  pub written : ℕ
  pub more : Bool

-- The bytes that a message is counted for.
abbrev pub required : Message → ℕ
required m = m.size + message_header_bytes

-- `available - *written` is an unsigned subtraction.
unfoldable pub write_message : List Message → List ℕ → ℕ → ℕ → Outcome Written
unfolding serialize
write_message [] packet available written =
    done (record { queue = []; packet = packet; written = written; more = false })
write_message (m ∷ queue) packet available written = do
  room ← checked_sub available written
  if ltb room (required m)
      then done (record { queue = m ∷ queue; packet = packet; written = written; more = false })
      else done (record {
        queue = queue;
        packet = packet ++ serialize m;
        written = written + required m;
        more = true;
      })

unfoldable pub write_loop : ℕ → List Message → List ℕ → ℕ → ℕ → Outcome Written
unfolding write_message
write_loop zero queue packet available used = stuck
write_loop (suc fuel) queue packet available used = do
  w ← write_message queue packet available used
  elim w.more [ true ↦ write_loop fuel w.queue w.packet available w.written | false ↦ done w ]

-- Each round but the last takes a message from the queue.
unfoldable pub write_messages : List Message → List ℕ → ℕ → ℕ → Outcome Written
unfolding write_loop
write_messages queue packet available written = do
  w ← write_loop (suc (length queue)) queue packet available 0
  done (record w { written = written + w.written })
