-- ===== src/Connection/Invariant/Update.antt =====
-- src/shared/connection.rs: `update_send_state` and the congestion state, and the invariant.
use cobalt_rs.Common.{ℕ, refl, true, false, List, [], ◌∷◌, ◌++◌, ltb, Bool-cases, inl, inr}
use mathlib.Core.Bool.{xor}
use cobalt_rs.Traits.{Clock, Env}
use cobalt_rs.Connection.{
  Connection, ConnectionState, ConnectionEvent, connecting, failed_to_connect, closing, push_event,
  rtt, packet_loss,
}
use cobalt_rs.Connection.Send.{fail_with, send_in_state, update_congestion}
use cobalt_rs.Connection.Invariant.Accept.{Kept}

module _ {F R M A : Type 0} where
  -- Only state and events are changed.
  quiet-Kept :
      (state : ConnectionState) (events : List ConnectionEvent) (c : Connection F R M A)
      → Kept c (record c { state = state; events = events })
  quiet-Kept state events c = record {
    kept_config = refl;
    kept_queue = refl;
    kept_id = refl;
    kept_valid = λ now v. record {
      local_lt = v.local_lt;
      remote_lt = v.remote_lt;
      received = v.received;
      acks_le = v.acks_le;
      sent = v.sent;
      kinds = v.kinds;
    };
  }

  same-Kept : (c : Connection F R M A) → Kept c c
  same-Kept c = record {
    kept_config = refl;
    kept_queue = refl;
    kept_id = refl;
    kept_valid = λ now v. v;
  }

  fail_with-Kept :
      (state : ConnectionState) (event : ConnectionEvent) (c : Connection F R M A)
      → Kept c (fail_with state event c).0
  unfolding fail_with push_event
  fail_with-Kept state event c = quiet-Kept state (c.events ++ event ∷ []) c

  pub send_in_state-Kept :
      (s : ConnectionState) (rt st : ℕ) (c : Connection F R M A)
      → Kept c (send_in_state s rt st c).0
  unfolding send_in_state
  send_in_state-Kept ConnectionState.lost rt st c = same-Kept c
  send_in_state-Kept ConnectionState.closed rt st c = same-Kept c
  send_in_state-Kept failed_to_connect rt st c = same-Kept c
  send_in_state-Kept connecting rt st c =
      elim (Bool-cases (ltb c.config.connection_init_threshold rt)) [
        | inl t ↦ rw t (fail_with-Kept failed_to_connect ConnectionEvent.failed_to_connect c)
        | inr t ↦ rw t (same-Kept c)
      ]
  send_in_state-Kept ConnectionState.connected rt st c =
      elim (Bool-cases (ltb c.config.connection_drop_threshold rt)) [
        | inl t ↦ rw t (fail_with-Kept ConnectionState.lost (ConnectionEvent.lost true) c)
        | inr t ↦ elim (Bool-cases (ltb c.config.connection_drop_threshold st)) [
          | inl u ↦ rw (t, u) (fail_with-Kept ConnectionState.lost (ConnectionEvent.lost false) c)
          | inr u ↦ rw (t, u) (same-Kept c)
        ]
      ]
  send_in_state-Kept closing rt st c =
      elim (Bool-cases (ltb c.config.connection_closing_threshold rt)) [
        | inl t ↦ rw t (fail_with-Kept ConnectionState.closed (ConnectionEvent.closed false) c)
        | inr t ↦ rw t (same-Kept c)
      ]

  pub update_congestion-Kept :
      (e : Env F R M) (clock : Clock) (c : Connection F R M A)
      → Kept c (update_congestion e clock c)
  unfolding update_congestion push_event
  update_congestion-Kept e clock c =
      elim (Bool-cases (
        xor (e.limiter.congested c.rate_limiter) (
          e.limiter.congested
            (e.limiter.update c.rate_limiter (rtt e.ops c) (packet_loss e.ops c) clock)))) [
              | inl t ↦ rw t (record {
                kept_config = refl;
                kept_queue = refl;
                kept_id = refl;
                kept_valid = λ now v. record {
                  local_lt = v.local_lt;
                  remote_lt = v.remote_lt;
                  received = v.received;
                  acks_le = v.acks_le;
                  sent = v.sent;
                  kinds = v.kinds;
                };
              })
              | inr t ↦ rw t (record {
                kept_config = refl;
                kept_queue = refl;
                kept_id = refl;
                kept_valid = λ now v. record {
                  local_lt = v.local_lt;
                  remote_lt = v.remote_lt;
                  received = v.received;
                  acks_le = v.acks_le;
                  sent = v.sent;
                  kinds = v.kinds;
                };
              })
            ]
