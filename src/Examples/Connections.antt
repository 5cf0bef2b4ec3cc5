-- ===== src/Examples/Connections.antt =====
-- Runs of src/shared/connection.rs.
use cobalt_rs.Common.{
  ℕ, ◌+◌, ◌<◌, ◌≡◌, refl, List, [], ◌∷◌, ◌%◌, true, ◌&&◌, ◌||◌, ltb, ◌==◌, contains, none, some,
  length, All, Outcome, Returns, done, panic, stuck, arith,
}
use mathlib.Core.Bool.{xor}
use cobalt_rs.MessageQueue
use cobalt_rs.Traits.{Env, Socket, Clock}
use cobalt_rs.Sequence.{ack_bitfield, seq_was_acked, seq_is_more_recent}
use cobalt_rs.Sequence.Acks.{seq_was_acked-ack_bitfield, behind}
use cobalt_rs.Sequence.Order.{more_recent-unwrapped, more_recent-ahead, ahead_by_half}
use cobalt_rs.MessageQueue.{order_is_more_recent}
use cobalt_rs.Connection.{Connection, new}
use cobalt_rs.Connection.Receive.{receive_packet}
use cobalt_rs.Connection.Send.{send_packet}
use cobalt_rs.Connection.Receive.{accept_packet}
use cobalt_rs.Connection.Invariant.{IsConfigured, IsValid}
use cobalt_rs.Connection.Invariant.Accept.{Accepted, IsByte, accept_packet_lem, receive_packet_lem}
use cobalt_rs.Connection.Invariant.Send.{send_packet_returns}
use cobalt_rs.Connection.Machine.{Moves}
use cobalt_rs.Connection.Machine.Steps.{receive_packet-Moves, send_packet-Moves}
use cobalt_rs.Examples.Values.{thousandths, config}

seq_was_acked-ack_bitfield_example :
    (bits : ℕ) × (ack_bitfield (7 ∷ 5 ∷ 250 ∷ []) 8 0 ≡ done bits)
    × (seq_was_acked 250 8 bits
        ≡ done (250 == 8 || (contains 250 (7 ∷ 5 ∷ 250 ∷ []) && ltb (behind 250 8) 32)))
seq_was_acked-ack_bitfield_example =
    seq_was_acked-ack_bitfield (7 ∷ 5 ∷ 250 ∷ []) 8 250
      (omega arith, (omega arith, (omega arith, tt))) (omega arith) (omega arith)

more_recent-ahead_example :
    (seq_is_more_recent 3 250 ≡ ahead_by_half 256 3 250)
    × (order_is_more_recent 2048 0 ≡ ahead_by_half 4096 2048 0)
more_recent-ahead_example =
    more_recent-ahead 3 250 2048 0 (omega arith) (omega arith) (omega arith) (omega arith)

more_recent-unwrapped_example :
    (seq_is_more_recent (259 % 256) (250 % 256) ≡ ltb 250 259)
    × (order_is_more_recent (4095 % 4096) (4097 % 4096) ≡ ltb 4097 4095)
more_recent-unwrapped_example =
    more_recent-unwrapped 259 250 4095 4097 (omega arith) (omega arith) (omega arith) (omega arith)

-- A limiter that counts its updates, and a modifier that counts its calls.
abbrev pub env : Env ℕ ℕ ℕ
env = record {
  ops = thousandths;
  limiter = record {
    new_limiter = λ c clock. 0;
    update = λ r rtt loss clock. r + 1;
    congested = λ r. ltb 1 r;
    should_send = λ r. true;
    reset_limiter = λ r clock. 0;
  };
  modifier = record {
    new_modifier = λ c. 0;
    outgoing = λ m payload. (none, m + 1);
    incoming = λ m payload. (none, m + 1);
  };
}

-- A socket that keeps what was sent.
abbrev pub net : Socket (List (List ℕ)) ℕ
net = record {
  new_socket = λ addr size. some [];
  try_recv = λ s. (none, s);
  send_to = λ s packet addr. (some (length packet), packet ∷ s);
  local_addr = λ s. some 1;
}

abbrev pub clock : Clock
clock = λ i. 1000000 + i

abbrev pub fresh : Connection ℕ ℕ ℕ ℕ
fresh = new thousandths config 77 1 2 0 0 clock

abbrev pub fresh_rate : 0 < fresh.config.send_rate
unfolding new
fresh_rate = omega arith

abbrev pub hello : List ℕ
hello = 1 ∷ 2 ∷ 3 ∷ 4 ∷ 0 ∷ 0 ∷ 0 ∷ 9 ∷ 0 ∷ 0 ∷ 0 ∷ 0 ∷ 0 ∷ 0 ∷ 0 ∷ 0 ∷ 0 ∷ 1 ∷ 65 ∷ []

abbrev connection_of : {B : Type 0} → Outcome (Connection ℕ ℕ ℕ ℕ × B) → Connection ℕ ℕ ℕ ℕ
connection_of (done r) = r.0
connection_of panic = fresh
connection_of stuck = fresh

receive_packet-Moves_example : Moves fresh (connection_of (receive_packet env hello clock fresh))
unfolding receive_packet new
receive_packet-Moves_example = receive_packet-Moves env hello clock fresh {consumed = true} refl

abbrev sender_of : Outcome (Connection ℕ ℕ ℕ ℕ × List (List ℕ) × ℕ) → Connection ℕ ℕ ℕ ℕ
sender_of (done (c, socket, sent)) = c
sender_of panic = fresh
sender_of stuck = fresh

abbrev socket_of : Outcome (Connection ℕ ℕ ℕ ℕ × List (List ℕ) × ℕ) → List (List ℕ)
socket_of (done (c, socket, sent)) = socket
socket_of panic = []
socket_of stuck = []

send_packet-Moves_example : Moves fresh (sender_of (send_packet env net [] 2 clock fresh))
unfolding send_packet new xor MessageQueue.send_packet MessageQueue.new
send_packet-Moves_example =
    send_packet-Moves env net [] 2 clock fresh
      {socket' = socket_of (send_packet env net [] 2 clock fresh)} {sent = 14} refl

-- The first packet: header, id, sequence number 0, and an empty acknowledgement.
first_packet :
    socket_of (send_packet env net [] 2 clock fresh)
    ≡ (1 ∷ 2 ∷ 3 ∷ 4 ∷ 0 ∷ 0 ∷ 0 ∷ 77 ∷ 0 ∷ 0 ∷ 0 ∷ 0 ∷ 0 ∷ 0 ∷ []) ∷ []
unfolding send_packet new xor MessageQueue.send_packet MessageQueue.new
first_packet = refl

abbrev pub fresh-IsValid : (now : ℕ) → IsValid now fresh
unfolding new MessageQueue.new
fresh-IsValid now = record {
  local_lt = omega arith;
  remote_lt = omega arith;
  received = tt;
  acks_le = omega arith;
  sent = tt;
  kinds = record { all_i = tt; all_r = tt; all_o = tt };
}

abbrev fresh-IsConfigured : IsConfigured thousandths fresh
unfolding new MessageQueue.new MessageQueue.quota_bytes
fresh-IsConfigured = record {
  id_lt = omega arith;
  rate = omega arith;
  room = omega arith;
  quotas = omega arith;
}

-- After the first packet was sent, with the time of its record.
abbrev pub started : Connection ℕ ℕ ℕ ℕ
started = sender_of (send_packet env net [] 2 clock fresh)

abbrev pub started-IsValid : IsValid 1000003 started
unfolding send_packet new xor MessageQueue.send_packet MessageQueue.new MessageQueue.dismiss
started-IsValid = record {
  local_lt = omega arith;
  remote_lt = omega arith;
  received = tt;
  acks_le = omega arith;
  sent = ((refl, (omega arith, omega arith)), tt);
  kinds = record { all_i = tt; all_r = tt; all_o = tt };
}

abbrev pub hello-IsByte : All IsByte hello
hello-IsByte = (
  omega arith,
  (
    omega arith,
    (
      omega arith,
      (
        omega arith,
        (
          omega arith,
          (
            omega arith,
            (
              omega arith,
              (
                omega arith,
                (
                  omega arith,
                  (
                    omega arith,
                    (
                      omega arith,
                      (
                        omega arith,
                        (
                          omega arith,
                          (
                            omega arith,
                            (
                              omega arith,
                              (omega arith, (omega arith, (omega arith, (omega arith, tt)))),
                            ),
                          ),
                        ),
                      ),
                    ),
                  ),
                ),
              ),
            ),
          ),
        ),
      ),
    ),
  ),
)

abbrev started_rate : 0 < started.config.send_rate
unfolding send_packet new xor MessageQueue.send_packet MessageQueue.new MessageQueue.dismiss
started_rate = omega arith

-- The packet acknowledges the sequence number 0 of the sender.
accept_packet_lem_example :
    Returns (accept_packet env hello 2000000 started) (λ c'. Accepted 2000000 started c')
accept_packet_lem_example =
    accept_packet_lem env hello 1000003 2000000 started started_rate hello-IsByte (omega arith)
      started-IsValid

receive_packet_lem_example :
    Returns
      (receive_packet env hello (λ i. 2000000 + i) started)
      (λ r. IsValid 2000000 r.0 × (r.0.config ≡ started.config))
receive_packet_lem_example =
    receive_packet_lem env hello 1000003 (λ i. 2000000 + i) started started_rate hello-IsByte
      (omega arith) started-IsValid

send_packet_returns_example :
    Returns (send_packet env net [] 2 clock fresh) (λ r. IsValid 1000003 r.0)
send_packet_returns_example =
    send_packet_returns env net [] 2 clock 0 1000003 fresh (omega arith) (omega arith)
      fresh-IsConfigured (fresh-IsValid 0)
