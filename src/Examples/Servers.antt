-- ===== src/Examples/Servers.antt =====
-- Runs of src/server.rs.
use cobalt_rs.Common.{ℕ, ◌+◌, ◌≡◌, refl, List, [], ◌∷◌, false, true, some, done, panic, arith}
use cobalt_rs.Connection.{id_from_packet}
use cobalt_rs.Stats
use cobalt_rs.Server.{Server}
use cobalt_rs.Server.Receive.{receive_connection_packet}
use cobalt_rs.Server.Send.{send}
use cobalt_rs.Server.Stalled.{short_datagram_panics}
use cobalt_rs.Examples.Values.{config}
use cobalt_rs.Examples.Clients.{host}

abbrev pub listening : Server ℕ ℕ ℕ (List (ℕ × List ℕ)) ℕ
listening = record {
  config = config;
  socket = some [];
  connections = [];
  addresses = [];
  dropped = [];
  ticker = record {
    tick_start = 5;
    tick_overflow = 0;
    tick_overflow_recovery = true;
    tick_overflow_recovery_rate = 1000;
    tick_delay = 33333333;
  };
  local_address = some 1;
  events = [];
  should_receive = true;
  stats_collector = Stats.new config;
  stats = record { bytes_sent = 0; bytes_received = 0 };
}

-- Header and id only.
abbrev probe : List ℕ
probe = 1 ∷ 2 ∷ 3 ∷ 4 ∷ 0 ∷ 0 ∷ 0 ∷ 9 ∷ []

probe_id : id_from_packet config probe ≡ some 9
unfolding id_from_packet
probe_id = refl

short_datagram_panics_example :
    (s' : Server ℕ ℕ ℕ (List (ℕ × List ℕ)) ℕ) × (receive_connection_packet host
        (λ i j. 1000 + j)
        77
        9
        5
        probe
        listening
      ≡ done (s', 8))
    × (send false host (λ i j. 200000000 + j) 200000000 s' ≡ panic)
short_datagram_panics_example =
    short_datagram_panics host (λ i j. 1000 + j) (λ i j. 200000000 + j) 77 9 200000000 1 5 [] probe
      false listening (record { no_connections = refl; no_addresses = refl; none_dropped = refl })
      refl refl (omega arith) (omega arith)
