-- ===== src/Connection/Histories.antt =====
-- src/shared/connection.rs: histories of calls of a connection.
use cobalt_rs.Common.{
  ℕ, ◌≤◌, ◌<◌, ◌^◌, ◌≡◌, refl, sym, ap, subst, ◌∙◌, List, Bool, All, done, done-injective, Returns,
  arith,
}
use cobalt_rs.Config.{Config}
use cobalt_rs.Message.{MessageKind}
use cobalt_rs.MessageQueue
use cobalt_rs.MessageQueue.{MessageQueue}
use cobalt_rs.Traits.{Clock, Env, Socket}
use cobalt_rs.Connection as Peer
use cobalt_rs.Connection.{Connection, ConnectionEvent, packet_header_size, push_event}
use cobalt_rs.Connection.Receive.{receive_packet}
use cobalt_rs.Connection.Send.{send_packet}
use cobalt_rs.Connection.Invariant.Accept.{IsByte}
use cobalt_rs.Connection.Ready.{
  Sensible, Ready, send-KindsMatch, send-config, same-Ready, receive_packet-Ready,
  send_packet-Ready,
}

module _ {F R M S A : Type 0} where
  -- A connection, and a time that lies behind all times that it has recorded of sent packets.
  pub data Reach (e : Env F R M) (net : Socket S A) : ℕ → Connection F R M A → Type 0 where
    starts :
        (config : Config F) (random now : ℕ) (local_addr peer_addr : A) (limiter : R) (modifier : M)
        (clock : Clock)
        → random < 2 ^ 32
        → Sensible e.ops config
        → Reach e net now (Peer.new e.ops config random local_addr peer_addr limiter modifier clock)
    set_configs :
        {now : ℕ} {c : Connection F R M A} (config : Config F)
        → Reach e net now c
        → Sensible e.ops config
        → Reach e net now (Peer.set_config config c)
    sends :
        {now : ℕ} {c : Connection F R M A} (k : MessageKind) (payload : List ℕ)
        → Reach e net now c
        → Reach e net now (Peer.send k payload c)
    gives_events :
        {now : ℕ} {c : Connection F R M A} → Reach e net now c → Reach e net now (Peer.events c).1
    moves :
        {now : ℕ} {c : Connection F R M A} (addr : A)
        → Reach e net now c
        → Reach e net now (Peer.set_peer_addr addr c)
    closes : {now : ℕ} {c : Connection F R M A} → Reach e net now c → Reach e net now (Peer.close c)
    resets :
        {now : ℕ} {c : Connection F R M A} (clock : Clock)
        → Reach e net now c
        → Reach e net now (Peer.reset e clock c)
    receives :
        {now : ℕ} {c c' : Connection F R M A} {consumed : Bool} (packet : List ℕ) (clock : Clock)
        → Reach e net now c
        → All IsByte packet
        → now ≤ clock 0
        → receive_packet e packet clock c ≡ done (c', consumed)
        → Reach e net (clock 0) c'
    sends_packet :
        {before now sent : ℕ} {c c' : Connection F R M A} {socket' : S} (socket : S) (addr : A)
        (clock : Clock)
        → Reach e net before c
        → before ≤ now
        → clock 3 ≤ now
        → send_packet e net socket addr clock c ≡ done (c', socket', sent)
        → Reach e net now c'

  Reach-Ready :
      (e : Env F R M) (net : Socket S A) {now : ℕ} {c : Connection F R M A}
      → Reach e net now c
      → Ready e.ops now c
  unfolding Peer.new MessageQueue.new Peer.set_config MessageQueue.set_config Peer.send Peer.events
      MessageQueue.received Peer.set_peer_addr Peer.close Peer.reset MessageQueue.reset
  Reach-Ready e net
        (starts config random now local_addr peer_addr limiter modifier clock id_lt sensible) =
      record {
        valid = record {
          local_lt = omega arith;
          remote_lt = omega arith;
          received = tt;
          acks_le = omega arith;
          sent = tt;
          kinds = record { all_i = tt; all_r = tt; all_o = tt };
        };
        configured = record {
          id_lt = id_lt;
          rate = sensible.rate;
          room = sensible.room;
          quotas = sensible.quotas;
        };
      }
  Reach-Ready e net (set_configs {c} config reach sensible) =
      let ready = Reach-Ready e net reach in
      record {
        valid = record {
          local_lt = ready.valid.local_lt;
          remote_lt = ready.valid.remote_lt;
          received = ready.valid.received;
          acks_le = ready.valid.acks_le;
          sent = ready.valid.sent;
          kinds = record {
            all_i = ready.valid.kinds.all_i;
            all_r = ready.valid.kinds.all_r;
            all_o = ready.valid.kinds.all_o;
          };
        };
        configured = record {
          id_lt = ready.configured.id_lt;
          rate = sensible.rate;
          room = sensible.room;
          quotas = sensible.quotas;
        };
      }
  Reach-Ready e net {now} (sends {c} k payload reach) =
      let ready = Reach-Ready e net reach in
      same-Ready e.ops now c (Peer.send k payload c)
        (ap (λ q. (c.config, c.random_id, q)) (send-config k payload c.message_queue)) refl refl
        refl refl (send-KindsMatch k payload c.message_queue ready.valid.kinds) ready
  Reach-Ready e net {now} (gives_events {c} reach) =
      let ready = Reach-Ready e net reach in
      same-Ready e.ops now c (Peer.events c).1 refl refl refl refl refl
        (record {
          all_i = ready.valid.kinds.all_i;
          all_r = ready.valid.kinds.all_r;
          all_o = ready.valid.kinds.all_o;
        })
        ready
  Reach-Ready e net {now} (moves {c} addr reach) =
      let ready = Reach-Ready e net reach in
      same-Ready e.ops now c (Peer.set_peer_addr addr c) refl refl refl refl refl ready.valid.kinds
        ready
  Reach-Ready e net {now} (closes {c} reach) =
      let ready = Reach-Ready e net reach in
      same-Ready e.ops now c (Peer.close c) refl refl refl refl refl ready.valid.kinds ready
  Reach-Ready e net (resets {c} clock reach) =
      let ready = Reach-Ready e net reach in
      record {
        valid = record {
          local_lt = omega arith;
          remote_lt = omega arith;
          received = tt;
          acks_le = omega arith;
          sent = tt;
          kinds = record { all_i = tt; all_r = tt; all_o = tt };
        };
        configured = record {
          id_lt = ready.configured.id_lt;
          rate = ready.configured.rate;
          room = ready.configured.room;
          quotas = ready.configured.quotas;
        };
      }
  Reach-Ready e net (receives {now} {c} packet clock reach is_bytes later run) =
      let (r, run', ready) =
        receive_packet-Ready e packet now clock c is_bytes later (Reach-Ready e net reach) in
      subst (λ r. Ready e.ops (clock 0) r.0) (done-injective (sym run' ∙ run)) ready
  Reach-Ready e net (sends_packet {before} {now} {c = c} socket addr clock reach later h run) =
      let (r, run', ready) =
        send_packet-Ready e net socket addr clock before now c later h (Reach-Ready e net reach) in
      subst (λ r. Ready e.ops now r.0) (done-injective (sym run' ∙ run)) ready

  -- After any history of calls of a connection the next one never panics: any packet of bytes is
  -- worked off, and a packet can be sent through any socket, and the history goes on. The
  -- configurations make sense, and the clock does not go back.
  pub Reach-Returns :
      (e : Env F R M) (net : Socket S A) (socket : S) (addr : A) (packet : List ℕ) (clock : Clock)
      {now : ℕ} (c : Connection F R M A)
      → Reach e net now c
      → All IsByte packet
      → now ≤ clock 0
      → now ≤ clock 3
      → Returns (receive_packet e packet clock c) (λ r. Reach e net (clock 0) r.0)
        × Returns (send_packet e net socket addr clock c) (λ r. Reach e net (clock 3) r.0)
  Reach-Returns e net socket addr packet clock {now} c reach is_bytes later later3 =
      let ready = Reach-Ready e net reach in
      let ((c1, consumed), run, _) =
        receive_packet-Ready e packet now clock c is_bytes later ready in
      let ((c2, socket', sent), run', _) =
        send_packet-Ready e net socket addr clock now (clock 3) c later3 (omega arith) ready in
      (
        ((c1, consumed), run, receives packet clock reach is_bytes later run),
        ((c2, socket', sent), run', sends_packet socket addr clock reach later3 (omega arith) run'),
      )
