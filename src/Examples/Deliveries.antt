-- ===== src/Examples/Deliveries.antt =====
-- Runs of src/shared/connection.rs: a packet from one connection to another.
use cobalt_rs.Common.{
  ℕ, ◌+◌, ◌≡◌, refl, inl, List, [], ◌∷◌, arith, Outcome, done, panic, stuck, false, true,
}
use cobalt_rs.Message.{ordered}
use cobalt_rs.MessageQueue
use cobalt_rs.MessageQueue.Delivery.{WellFormed}
use cobalt_rs.Connection as Peer
use cobalt_rs.Connection.{Connection, ConnectionState, ConnectionEvent, push_event}
use cobalt_rs.Connection.Receive.{update_receive_state, receive_packet}
use cobalt_rs.Connection.Send.{send_packet, packet_prefix, write_body, write_packet, modify_packet}
use cobalt_rs.Connection.Closing.{close-receive_packet}
use cobalt_rs.Connection.Invariant.{IsValid, IsConfigured}
use cobalt_rs.Connection.Delivery.{
  Arrives, Settles, write_body-receive_packet, write_body-acknowledges,
}
use cobalt_rs.Examples.Values.{thousandths, config}
use cobalt_rs.Connection.Ready.{Sensible}
use cobalt_rs.Connection.Histories.{Reach, starts, sends, Reach-Returns}
use cobalt_rs.Common.{Returns}
use cobalt_rs.Examples.Connections.{
  env, net, fresh, clock, hello, hello-IsByte, started, started-IsValid,
}
use mathlib.Core.Bool.{xor}

-- An ordered message waits to be sent.
abbrev speaker : Connection ℕ ℕ ℕ ℕ
speaker = Peer.send ordered (65 ∷ 66 ∷ []) fresh

abbrev speaker-IsConfigured : IsConfigured thousandths speaker
unfolding Peer.new Peer.send MessageQueue.new MessageQueue.send MessageQueue.quota_bytes
speaker-IsConfigured = record {
  id_lt = omega arith;
  rate = omega arith;
  room = omega arith;
  quotas = omega arith;
}

abbrev speaker-IsValid : IsValid 1000002 speaker
unfolding Peer.new Peer.send MessageQueue.new MessageQueue.send
speaker-IsValid = record {
  local_lt = omega arith;
  remote_lt = omega arith;
  received = tt;
  acks_le = omega arith;
  sent = tt;
  kinds = record { all_i = tt; all_r = tt; all_o = (refl, tt) };
}

abbrev speaker-WellFormed : WellFormed speaker.message_queue
unfolding Peer.new Peer.send MessageQueue.new MessageQueue.send
speaker-WellFormed = record {
  well_i = tt;
  well_r = tt;
  well_o = (record { order_lt = omega arith; size_lt = omega arith; exact = refl }, tt);
}

write_body-receive_packet_example : Arrives env (λ i. 2000000 + i) speaker started
unfolding Peer.new Peer.send send_packet xor MessageQueue.send_packet MessageQueue.new
    MessageQueue.dismiss
write_body-receive_packet_example =
    write_body-receive_packet env 1000002 1000003 (λ i. 2000000 + i) speaker started
      (λ m m' p. refl) speaker-IsConfigured speaker-IsValid speaker-WellFormed refl (inl refl)
      (omega arith) (omega arith) started-IsValid

write_body-acknowledges_example : Settles env (λ i. 2000000 + i) speaker started
unfolding Peer.new Peer.send send_packet xor MessageQueue.send_packet MessageQueue.new
    MessageQueue.dismiss
write_body-acknowledges_example =
    write_body-acknowledges env 1000002 1000003 (λ i. 2000000 + i) speaker started (λ m m' p. refl)
      speaker-IsConfigured speaker-IsValid speaker-WellFormed refl (inl refl) (omega arith)
      (omega arith) started-IsValid

-- A connection that has received every other one of the last packets up to 128, and sends its packet
-- 0.
abbrev every_other : Connection ℕ ℕ ℕ ℕ
every_other = record fresh {
  state = ConnectionState.connected;
  remote_seq_number = 128;
  recv_ack_queue =
      127 ∷ 125 ∷ 123 ∷ 121 ∷ 119 ∷ 117 ∷ 115 ∷ 113 ∷ 111 ∷ 109 ∷ 107 ∷ 105 ∷ 103 ∷ 101 ∷ 99 ∷ 97
      ∷ [];
}

abbrev packet_of : Outcome (Connection ℕ ℕ ℕ ℕ × List ℕ) → List ℕ
packet_of (done r) = r.1
packet_of panic = []
packet_of stuck = []

-- The receiver takes it for a closure packet.
misread :
    (update_receive_state
      (packet_of (write_body env (packet_prefix every_other.config 77) every_other))
      (record fresh { state = ConnectionState.connected; remote_seq_number = 255 })).0.state
    ≡ ConnectionState.closed
unfolding write_body update_receive_state packet_prefix Peer.new MessageQueue.send_packet
    MessageQueue.new
misread = refl

close-receive_packet_example :
    (c' : Connection ℕ ℕ ℕ ℕ) × (written : List ℕ) × (write_packet env
        (Peer.close speaker).state
        (Peer.close speaker)
      ≡ done (c', written))
    × (c' ≡ Peer.close speaker)
    × (receive_packet env
          (modify_packet env written c').1
          (λ i. 2000000 + i)
          (record fresh { state = ConnectionState.connected })
        ≡ done (
          push_event
              (ConnectionEvent.closed true)
              (record fresh { state = ConnectionState.closed }),
          false,
        ))
unfolding Peer.new Peer.send
close-receive_packet_example =
    close-receive_packet env (λ i. 2000000 + i) speaker
      (record fresh { state = ConnectionState.connected }) (omega arith) refl refl

config-Sensible : Sensible thousandths config
unfolding MessageQueue.new MessageQueue.quota_bytes
config-Sensible = record { rate = omega arith; room = omega arith; quotas = omega arith }

abbrev speaker_reached : Reach env net 1000 speaker
speaker_reached =
    sends ordered (65 ∷ 66 ∷ []) (starts config 77 1000 1 2 0 0 clock (omega arith) config-Sensible)

Reach-Returns_example :
    Returns (receive_packet env hello clock speaker) (λ r. Reach env net (clock 0) r.0)
    × Returns (send_packet env net [] 2 clock speaker) (λ r. Reach env net (clock 3) r.0)
Reach-Returns_example =
    Reach-Returns env net [] 2 hello clock speaker speaker_reached hello-IsByte (omega arith)
      (omega arith)
