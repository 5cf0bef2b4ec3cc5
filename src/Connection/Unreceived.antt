-- ===== src/Connection/Unreceived.antt =====
-- src/shared/connection.rs: what a connection that has received nothing acknowledges.
use cobalt_rs.Common.{ℕ, ◌≡◌, List, [], true, ◌==◌, done}
use cobalt_rs.Traits.{Clock, Env}
use cobalt_rs.Connection.{Connection}
use cobalt_rs.Connection.Receive.{receive_packet}
use cobalt_rs.Connection.Send.{packet_prefix, write_body, modify_packet}
use cobalt_rs.Connection.Waiting.{keep_if, waits}

module _ {F R M A : Type 0} where
  -- Nothing has been received, as after `new` and after `reset`.
  pub record NothingReceived (c : Connection F R M A) : Type 0 where
    pub none_received : c.recv_ack_queue ≡ []
    pub seq_zero : c.remote_seq_number ≡ 0

  abbrev pub LosesFirst : Env F R M → Clock → Connection F R M A → Connection F R M A → Type 0
  LosesFirst e clock c d =
      (c' : Connection F R M A) × (written : List ℕ) × (d' : Connection F R M A) × (write_body e
          (packet_prefix c.config c.random_id) c
        ≡ done (c', written))
      × (receive_packet e (modify_packet e written c').1 clock d ≡ done (d', true))
      × (d'.sent_ack_queue
          ≡ keep_if (waits (clock 0) d.config.packet_drop_threshold (λ seq. seq == 0))
              d.sent_ack_queue)
