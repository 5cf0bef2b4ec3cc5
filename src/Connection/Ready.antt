-- ===== src/Connection/Ready.antt =====
-- src/shared/connection.rs: what holds between two calls, and the calls of `receive_packet`,
-- `send_packet` and `send`.
use cobalt_rs.Common.{
  ℕ, ◌-◌, ◌≤◌, ◌<◌, ◌^◌, ◌≡◌, refl, sym, ap, ap₂, subst, List, All, All-append, length, Returns,
  arith,
}
use cobalt_rs.Config.{Config, FloatOps}
use cobalt_rs.Message.{MessageKind, instant, reliable, ordered}
use cobalt_rs.MessageQueue
use cobalt_rs.MessageQueue.{MessageQueue}
use cobalt_rs.MessageQueue.Sends.{KindsMatch, HasKind}
use cobalt_rs.MessageQueue.Sending.{QuotasFit}
use cobalt_rs.MessageQueue.Frame.{receive_packet-Untouched, lost_packet-Keeps}
use cobalt_rs.Traits.{Clock, Env, Socket}
use cobalt_rs.Connection.{Connection, packet_header_size, push_event}
use cobalt_rs.Connection.Receive.{receive_packet, receive_payload, lose_payload}
use cobalt_rs.Connection.Send.{send_packet}
use cobalt_rs.Connection.Steady.{Unmoved, receive_packet-Unmoved}
use cobalt_rs.Connection.Names.{send_packet-name}
use cobalt_rs.Connection.Invariant.{IsSeq, Pending, IsValid, IsConfigured}
use cobalt_rs.Connection.Invariant.Accept.{IsByte, receive_packet_lem, receive_in_state-Kept}
use cobalt_rs.Connection.Invariant.Send.{send_packet-IsValid}

module _ {F : Type 0} (ops : FloatOps F) where
  -- A configuration that makes sense for a connection and its message queue.
  pub record Sensible (config : Config F) : Type 0 where
    pub rate : 0 < config.send_rate
    pub room : packet_header_size ≤ config.packet_max_size
    pub quotas :
        QuotasFit ops (MessageQueue.new config) (config.packet_max_size - packet_header_size)

module _ {F : Type 0} where
  pub send-KindsMatch :
      (k : MessageKind) (payload : List ℕ) (q : MessageQueue F)
      → KindsMatch q
      → KindsMatch (MessageQueue.send k payload q)
  unfolding MessageQueue.send MessageQueue.outgoing
  send-KindsMatch instant payload q v = record {
    all_i = All-append (HasKind instant) q.i_queue _ v.all_i (refl, tt);
    all_r = v.all_r;
    all_o = v.all_o;
  }
  send-KindsMatch reliable payload q v = record {
    all_i = v.all_i;
    all_r = All-append (HasKind reliable) q.r_queue _ v.all_r (refl, tt);
    all_o = v.all_o;
  }
  send-KindsMatch ordered payload q v = record {
    all_i = v.all_i;
    all_r = v.all_r;
    all_o = All-append (HasKind ordered) q.o_queue _ v.all_o (refl, tt);
  }

  pub send-config :
      (k : MessageKind) (payload : List ℕ) (q : MessageQueue F)
      → (MessageQueue.send k payload q).config ≡ q.config
  unfolding MessageQueue.send
  send-config instant payload q = refl
  send-config reliable payload q = refl
  send-config ordered payload q = refl

module _ {F R M A : Type 0} where
  -- What `IsConfigured` depends on.
  abbrev pub setup : Connection F R M A → Config F × ℕ × Config F
  setup c = (c.config, c.random_id, c.message_queue.config)

  setup-IsConfigured :
      (ops : FloatOps F) (c c' : Connection F R M A)
      → setup c' ≡ setup c
      → IsConfigured ops c
      → IsConfigured ops c'
  setup-IsConfigured ops c c' e v =
      let back = sym e in
      record {
        id_lt = subst (λ s. s.1 < 2 ^ 32) back v.id_lt;
        rate = subst (λ s. 0 < s.0.send_rate) back v.rate;
        room = subst (λ s. packet_header_size ≤ s.0.packet_max_size) back v.room;
        quotas =
            subst
              (λ s.
                QuotasFit ops (record c.message_queue { config = s.2 })
                  (s.0.packet_max_size - packet_header_size))
              back v.quotas;
      }

  setup-Unmoved : (e : Env F R M) → Unmoved e setup
  unfolding receive_payload lose_payload push_event
  setup-Unmoved e = record {
    steady = record {
      on_ack = λ c n t. refl;
      on_loss = λ c n. refl;
      on_return = λ c packet.
          ap (λ q. (c.config, c.random_id, q)) (lost_packet-Keeps _ c.message_queue).keeps_config;
    };
    on_state = λ s packet c.
        let kept = receive_in_state-Kept s packet c in
        ap₂ (λ (config : Config F) (rest : ℕ × Config F). (config, rest.0, rest.1)) kept.kept_config
          (ap₂ (λ (id : ℕ) (q : MessageQueue F). (id, q.config)) kept.kept_id kept.kept_queue);
    on_accept = λ c now seq. refl;
    on_payload = λ c payload sent acks n.
        ap (λ q. (c.config, c.random_id, q))
          (receive_packet-Untouched _ c.message_queue).same_config;
  }

  -- Between two calls, at the time `now`.
  pub record Ready (ops : FloatOps F) (now : ℕ) (c : Connection F R M A) : Type 0 where
    pub valid : IsValid now c
    pub configured : IsConfigured ops c

  pub receive_packet-Ready :
      (e : Env F R M) (packet : List ℕ) (now : ℕ) (clock : Clock) (c : Connection F R M A)
      → All IsByte packet
      → now ≤ clock 0
      → Ready e.ops now c
      → Returns (receive_packet e packet clock c) (λ r. Ready e.ops (clock 0) r.0)
  receive_packet-Ready e packet now clock c is_bytes later ready =
      let (r, run, v) =
        receive_packet_lem e packet now clock c ready.configured.rate is_bytes later ready.valid in
      (
        r,
        run,
        record {
          valid = v.0;
          configured =
              setup-IsConfigured e.ops c r.0
                (receive_packet-Unmoved e setup (setup-Unmoved e) packet clock c run)
                ready.configured;
        },
      )

  pub send_packet-Ready :
      {S : Type 0} (e : Env F R M) (net : Socket S A) (socket : S) (addr : A) (clock : Clock)
      (before now : ℕ) (c : Connection F R M A)
      → before ≤ now
      → clock 3 ≤ now
      → Ready e.ops before c
      → Returns (send_packet e net socket addr clock c) (λ r. Ready e.ops now r.0)
  send_packet-Ready e net socket addr clock before now c later h ready =
      let (r, run, v) =
        send_packet-IsValid e net socket addr clock before now c later h ready.configured
          ready.valid in
      (
        r,
        run,
        record {
          valid = v.0;
          configured =
              setup-IsConfigured e.ops c r.0
                (ap₂ (λ n q. (n.0, n.3, q)) (send_packet-name e net socket addr clock c run) v.1)
                ready.configured;
        },
      )

  -- A change of what the invariants ask little of.
  pub same-Ready :
      (ops : FloatOps F) (now : ℕ) (c c' : Connection F R M A)
      → setup c' ≡ setup c
      → c'.local_seq_number ≡ c.local_seq_number
      → c'.remote_seq_number ≡ c.remote_seq_number
      → c'.recv_ack_queue ≡ c.recv_ack_queue
      → c'.sent_ack_queue ≡ c.sent_ack_queue
      → KindsMatch c'.message_queue
      → Ready ops now c
      → Ready ops now c'
  same-Ready ops now c c' e l r acks sent kinds ready = record {
    valid = record {
      local_lt = omega (arith, l, ready.valid.local_lt);
      remote_lt = omega (arith, r, ready.valid.remote_lt);
      received = subst (All IsSeq) (sym acks) ready.valid.received;
      acks_le = omega (arith, ap length acks, ready.valid.acks_le);
      sent = subst (All (Pending now)) (sym sent) ready.valid.sent;
      kinds = kinds;
    };
    configured = setup-IsConfigured ops c c' e ready.configured;
  }
