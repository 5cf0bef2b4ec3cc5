-- ===== src/Server.antt =====
-- src/server.rs: the server over a socket, with a table of connections. `accept_receive` and `send`
-- have modules of their own. The hash maps are
-- association lists, and what iterates over one goes through the list in its order. Each datagram
-- and each connection that is sent to has clocks of its own.
pub mod Access
pub mod Receive
pub mod Send
pub mod Stalled
pub mod Tables
pub mod Invariant
pub mod Sending
pub mod Lookups
pub mod Calm
pub mod Fine
pub mod Loop
pub mod Histories
use cobalt_rs.Common.{
  ℕ, zero, suc, ◌+◌, ◌%◌, ◌^◌, List, [], ◌∷◌, ◌++◌, map, length, Option, none, some, Bool, true,
  false, not, ◌&&◌, ◌==◌, if◌then◌else◌, Outcome, done, panic, stuck, unwrap, ◌>>=◌,
}
use cobalt_rs.Config.{Config}
use cobalt_rs.Traits.{Clock, Env, Socket}
use cobalt_rs.Connection as Peer
use cobalt_rs.Connection.{Connection, ConnectionEvent, id_from_packet}
use cobalt_rs.Connection.Receive.{receive_packet}
use cobalt_rs.Stats
use cobalt_rs.Stats.{Stats, StatsCollector}
use cobalt_rs.Ticker
use cobalt_rs.Ticker.{Ticker}
use cobalt_rs.Client.{
  Host, Error, not_connected, already_exists, not_found, socket_error, TryRecvError, empty,
  disconnected, Result, ok, err, connection_of,
}

pub data ServerEvent : Type 0 where
  connection : ℕ → ServerEvent
  connection_lost connection_closed : ℕ → Bool → ServerEvent
  message packet_lost : ℕ → List ℕ → ServerEvent
  connection_congestion_state_changed : ℕ → Bool → ServerEvent

-- A `HashMap` with the ids of connections as keys.
abbrev pub Table : Type 0 → Type 0
Table V = List (ℕ × V)

abbrev pub lookup : {V : Type 0} → ℕ → Table V → Option V
lookup id [] = none
lookup id ((key, v) ∷ t) = if key == id then some v else lookup id t

abbrev pub remove : {V : Type 0} → ℕ → Table V → Table V
remove id [] = []
remove id ((key, v) ∷ t) = let rest = remove id t in if key == id then rest else (key, v) ∷ rest

-- `insert`, and what `get_mut` changes.
abbrev pub insert : {V : Type 0} → ℕ → V → Table V → Table V
insert id v [] = (id, v) ∷ []
insert id v ((key, w) ∷ t) =
    let rest = insert id v t in if key == id then (id, v) ∷ t else (key, w) ∷ rest

pub record Server (F R M S A : Type 0) : Type 0 where
  pub config : Config F
  pub socket : Option S
  pub connections : Table (Connection F R M A)
  pub addresses : Table A
  pub dropped : List ℕ
  pub ticker : Ticker F
  pub local_address : Option A
  pub events : List ServerEvent
  pub should_receive : Bool
  pub stats_collector : StatsCollector F
  pub stats : Stats

-- A failure to connect is `unreachable!()`.
unfoldable pub map_event : ℕ → ConnectionEvent → Outcome ServerEvent
map_event id ConnectionEvent.connected = done (connection id)
map_event id (ConnectionEvent.lost by_remote) = done (connection_lost id by_remote)
map_event id ConnectionEvent.failed_to_connect = panic
map_event id (ConnectionEvent.closed by_remote) = done (connection_closed id by_remote)
map_event id (ConnectionEvent.message payload) = done (message id payload)
map_event id (ConnectionEvent.congestion_state_changed c) =
    done (connection_congestion_state_changed id c)
map_event id (ConnectionEvent.packet_lost payload) = done (packet_lost id payload)

unfoldable pub map_events : ℕ → List ConnectionEvent → List ServerEvent → Outcome (List ServerEvent)
unfolding map_event
map_events id [] server_events = done server_events
map_events id (e ∷ es) server_events = do
  event ← map_event id e
  map_events id es (server_events ++ event ∷ [])

module _ {F R M A : Type 0} where
  -- The events of a connection, and the connection without them.
  unfoldable pub map_connection_events :
      List ServerEvent → Connection F R M A → Outcome (List ServerEvent × Connection F R M A)
  unfolding map_events
  map_connection_events server_events k = do
    let (es, k') = Peer.events k
    events ← map_events k.random_id es server_events
    done (events, k')

module _ {F R M S A : Type 0} where
  unfoldable pub new : Config F → ℕ → Outcome (Server F R M S A)
  new config now = do
    ticker ← Ticker.new config now
    done (record {
      config = config;
      socket = none;
      connections = [];
      addresses = [];
      dropped = [];
      ticker = ticker;
      local_address = none;
      events = [];
      should_receive = false;
      stats_collector = Stats.new config;
      stats = record { bytes_sent = 0; bytes_received = 0 };
    })

  -- `connection`: what the caller can change by `get_mut`.
  unfoldable pub connection_mut : ℕ → Server F R M S A → Result Error (Connection F R M A)
  connection_mut id s = elim s.socket [
    | none ↦ err not_connected
    | some socket ↦ elim (lookup id s.connections) [ some k ↦ ok k | none ↦ err not_found ]
  ]

  unfoldable pub set_config : Config F → Server F R M S A → Outcome (Server F R M S A)
  set_config config s = do
    ticker ← Ticker.set_config config s.ticker
    done (record s {
      config = config;
      ticker = ticker;
      stats_collector = Stats.set_config config s.stats_collector;
      connections = map (λ x. (x.0, Peer.set_config config x.1)) s.connections;
    })

  -- `resolved` is what `to_socket_addrs` makes of the address.
  unfoldable pub listen :
      Host F R M S A
      → Option (List A)
      → Server F R M S A
      → Outcome (Server F R M S A × Result Error Unit)
  listen h resolved s = elim s.socket [
    | some socket ↦ done (s, err already_exists)
    | none ↦ elim resolved [
      | none ↦ done (s, err socket_error)
      | some [] ↦ panic
      | some (local_addr ∷ rest) ↦ elim (h.net.new_socket local_addr s.config.packet_max_size) [
        | none ↦ done (s, err socket_error)
        | some socket ↦ done (
          record s { socket = some socket; local_address = some local_addr; should_receive = true },
          ok tt,
        )
      ]
    ]
  ]

  unfoldable pub shutdown : ℕ → Server F R M S A → Server F R M S A × Result Error Unit
  shutdown now s = elim s.socket [
    | none ↦ (s, err not_connected)
    | some socket ↦ (
      record s {
        should_receive = false;
        stats_collector = Stats.reset s.stats_collector;
        stats = Stats.reset_stats s.stats;
        events = [];
        connections = [];
        addresses = [];
        dropped = [];
        ticker = Ticker.reset now s.ticker;
        local_address = none;
        socket = none;
      },
      ok tt,
    )
  ]
