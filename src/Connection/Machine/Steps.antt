-- ===== src/Connection/Machine/Steps.antt =====
-- src/shared/connection.rs: the steps of `receive_packet` and `send_packet`.
use cobalt_rs.Common.{
  ℕ, ◌+◌, ◌-◌, ◌≡◌, refl, ap, subst, inl, inr, Bool, List, [], ◌++◌, done, ltb, length, returns,
  done-injective, Bool-cases,
}
use cobalt_rs.Traits.{Clock, Env, Socket}
use cobalt_rs.Connection.{Connection, ConnectionEvent, packet_header_size}
use cobalt_rs.Connection.Receive.{accept_packet, update_receive_state, receive_packet}
use cobalt_rs.Connection.Send.{update_congestion, update_send_state, send_packet}
use cobalt_rs.Connection.Machine.{
  Quiet, Moves, Checked, Checked-Quiet, quiet, Quiet-trans, update_receive_state-Checked,
  send_in_state-Checked,
}
use cobalt_rs.Connection.Machine.Receiving.{accept_packet-Quiet}
use cobalt_rs.Connection.Machine.Sending.{emit_packet-Quiet, update_congestion-Quiet}

module _ {F R M A : Type 0} where
  -- A packet that arrives makes the connection take at most one step of the state diagram. If it
  -- steps, one event tells of it, before all others; every other new event is about a lost packet
  -- or about congestion.
  pub receive_packet-Moves :
      (e : Env F R M) (packet : List ℕ) (clock : Clock) (c : Connection F R M A)
      {c' : Connection F R M A} {consumed : Bool}
      → receive_packet e packet clock c ≡ done (c', consumed)
      → Moves c c'
  unfolding receive_packet
  receive_packet-Moves e packet clock c {c'} {consumed} run =
      elim (Bool-cases (ltb (length packet) packet_header_size)) [
        | inl t ↦
            let same = ap (λ x. x.0) (done-injective (rw t at run)) in
            subst (Moves c) same (inl ([], quiet refl refl))
        | inr t ↦ elim (Bool-cases proceed) [
          | inl u ↦
              let (c2, run2, last) =
                returns (accept_packet e packet (clock 0) c1) (rw (t, u) at run) in
              let (notes, q) = accept_packet-Quiet e packet (clock 0) c1 run2 in
              subst (Moves c) (ap (λ x. x.0) (done-injective last))
                (Checked-Quiet notes (update_receive_state-Checked packet c) q)
          | inr u ↦
              subst (Moves c) (ap (λ x. x.0) (done-injective (rw (t, u) at run)))
                (Checked-Quiet [] (update_receive_state-Checked packet c) (quiet refl refl))
        ]
      ]
    where
      c1 : Connection F R M A
      c1 = (update_receive_state packet c).0

      proceed : Bool
      proceed = (update_receive_state packet c).1

  -- Sending makes the connection take at most one step of the state diagram, and if it steps, one
  -- event tells of it, before all others; every other new event is about congestion or about a lost
  -- packet.
  pub send_packet-Moves :
      {S : Type 0} (e : Env F R M) (net : Socket S A) (socket : S) (addr : A) (clock : Clock)
      (c : Connection F R M A) {c' : Connection F R M A} {socket' : S} {sent : ℕ}
      → send_packet e net socket addr clock c ≡ done (c', socket', sent)
      → Moves c c'
  unfolding send_packet update_send_state
  send_packet-Moves {S} e net socket addr clock c {c'} {socket'} {sent} run =
      elim (Bool-cases (update_send_state clock c).1) [
        | inl t ↦ elim (Bool-cases (e.limiter.should_send c2.rate_limiter)) [
          | inl u ↦ Checked-Quiet (notes ++ []) checked (
              Quiet-trans notes [] noted
                (emit_packet-Quiet e net socket addr clock c2 (rw (t, u) at run)))
          | inr u ↦
              subst (Moves c) (ap (λ x. x.0) (done-injective (rw (t, u) at run)))
                (Checked-Quiet notes checked noted)
        ]
        | inr t ↦
            subst (Moves c) (ap (λ x. x.0) (done-injective (rw t at run)))
              (Checked-Quiet [] checked (quiet refl refl))
      ]
    where
      c1 : Connection F R M A
      c1 = (update_send_state clock c).0

      c2 : Connection F R M A
      c2 = update_congestion e (λ i. clock (i + 4)) c1

      checked : Checked c c1
      checked =
          send_in_state-Checked c.state (clock 0 - c.last_receive_time) (clock 1 - c.last_send_time)
            c refl

      notes : List ConnectionEvent
      notes = (update_congestion-Quiet e (λ i. clock (i + 4)) c1).0

      noted : Quiet c1 c2 notes
      noted = (update_congestion-Quiet e (λ i. clock (i + 4)) c1).1
