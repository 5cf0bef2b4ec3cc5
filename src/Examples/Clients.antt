-- ===== src/Examples/Clients.antt =====
-- Runs of src/client.rs.
use cobalt_rs.Common.{
  ℕ, ◌+◌, ◌≡◌, refl, ◌⊎◌, List, [], ◌∷◌, length, true, false, ◌==◌, none, some, Returns, arith,
  done,
}
use cobalt_rs.Traits.{Socket}
use cobalt_rs.Connection.Invariant.{IsValid}
use cobalt_rs.Client.{Client, Host, new, connect, connection_of, receive_loop, ok}
use cobalt_rs.Stats
use cobalt_rs.Ticker
use cobalt_rs.Client.Loop.{bytes_from, receive_each, packets_from, receive_loop_lem}
use cobalt_rs.Client.Phases.{Open, Shut}
use cobalt_rs.Client.Histories.{starts, continues, connects, Reach-Phase}
use cobalt_rs.Examples.Values.{config}
use cobalt_rs.Examples.Connections.{
  env, fresh, fresh_rate, fresh-IsValid, hello, hello-IsByte, clock,
}

-- A socket that holds the datagrams that wait.
abbrev inbox : Socket (List (ℕ × List ℕ)) ℕ
inbox = record {
  new_socket = λ addr size. some [];
  try_recv = λ s. elim s [ [] ↦ (none, []) | d ∷ ds ↦ (some d, ds) ];
  send_to = λ s packet addr. (some (length packet), s);
  local_addr = λ s. some 1;
}

abbrev pub host : Host ℕ ℕ ℕ (List (ℕ × List ℕ)) ℕ
host = record { env = env; net = inbox; same_addr = λ a b. a == b; any_addr = 0 }

-- One packet of the peer 2, and one from elsewhere.
abbrev waiting : List (ℕ × List ℕ)
waiting = (2, hello) ∷ (9, hello) ∷ []

receive_loop_lem_example : Returns (receive_loop 3 host clock 2 waiting fresh 0) (λ r.
    (r.0 ≡ [])
    × (receive_each host (packets_from host 2 clock waiting) fresh ≡ done r.1)
    × IsValid 1000002 r.1
    × (r.2 ≡ 0 + bytes_from host 2 waiting))
receive_loop_lem_example =
    receive_loop_lem host waiting 3 clock 2 waiting [] 0 fresh 0 (omega arith)
      (((9, hello) ∷ []), refl, ([], refl, refl)) (hello-IsByte, (hello-IsByte, tt))
      (λ i. omega arith) (omega arith) fresh_rate (fresh-IsValid 0)

abbrev idle : Client ℕ ℕ ℕ (List (ℕ × List ℕ)) ℕ
idle = record {
  config = config;
  socket = none;
  link = none;
  ticker = record {
    tick_start = 5;
    tick_overflow = 0;
    tick_overflow_recovery = true;
    tick_overflow_recovery_rate = 1000;
    tick_delay = 33333333;
  };
  peer_address = none;
  local_address = none;
  events = [];
  should_receive = false;
  stats_collector = Stats.new config;
  stats = record { bytes_sent = 0; bytes_received = 0 };
}

-- Connected to the peer 2, with the random id 77.
abbrev online : Client ℕ ℕ ℕ (List (ℕ × List ℕ)) ℕ
online = record idle {
  socket = some [];
  peer_address = some 2;
  local_address = some 1;
  link = some (connection_of host config 77 1 2 clock);
  should_receive = true;
}

Reach-Phase_example : Open online ⊎ Shut online
unfolding new Ticker.new connect
Reach-Phase_example = Reach-Phase host (
    continues (starts {c = idle} config 5 refl)
      (connects {r = ok tt} (some (2 ∷ [])) 77 clock refl))
