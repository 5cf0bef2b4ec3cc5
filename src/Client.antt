-- ===== src/Client.antt =====
-- src/client.rs: the client over a socket. A method returns the new client and its result. The loop
-- over the socket's datagrams runs on fuel, as a socket may never run dry.
pub mod Access
pub mod Loop
pub mod Phases
pub mod Histories
use cobalt_rs.Common.{
  ℕ, zero, suc, ◌+◌, ◌%◌, ◌^◌, List, [], ◌∷◌, ◌++◌, map, length, Option, none, some, Bool, true,
  false, if◌then◌else◌, Outcome, done, panic, stuck, unwrap, ◌>>=◌,
}
use cobalt_rs.Config.{Config}
use cobalt_rs.Traits.{Clock, Env, Socket}
use cobalt_rs.Connection as Peer
use cobalt_rs.Connection.{Connection, ConnectionEvent}
use cobalt_rs.Connection.Receive.{receive_packet}
use cobalt_rs.Connection.Send
use cobalt_rs.Stats
use cobalt_rs.Stats.{Stats, StatsCollector}
use cobalt_rs.Ticker
use cobalt_rs.Ticker.{Ticker}

pub data ClientEvent : Type 0 where
  connection connection_failed : ClientEvent
  connection_lost connection_closed : Bool → ClientEvent
  message packet_lost : List ℕ → ClientEvent
  connection_congestion_state_changed : Bool → ClientEvent

-- The kinds of `std::io::Error` that the client and the server make, and those of the socket.
pub data Error : Type 0 where
  addr_not_available not_connected already_exists not_found socket_error : Error

pub data TryRecvError : Type 0 where
  empty disconnected : TryRecvError

pub data Result (E V : Type 0) : Type 0 where
  ok : V → Result E V
  err : E → Result E V

-- What the client is given: the traits, the equality of addresses, and "0.0.0.0:0".
pub record Host (F R M S A : Type 0) : Type 0 where
  pub env : Env F R M
  pub net : Socket S A
  pub same_addr : A → A → Bool
  pub any_addr : A

pub record Client (F R M S A : Type 0) : Type 0 where
  pub config : Config F
  pub socket : Option S
  pub link : Option (Connection F R M A)
  pub ticker : Ticker F
  pub peer_address : Option A
  pub local_address : Option A
  pub events : List ClientEvent
  pub should_receive : Bool
  pub stats_collector : StatsCollector F
  pub stats : Stats

unfoldable pub map_event : ConnectionEvent → ClientEvent
map_event ConnectionEvent.connected = connection
map_event ConnectionEvent.failed_to_connect = connection_failed
map_event (ConnectionEvent.lost by_remote) = connection_lost by_remote
map_event (ConnectionEvent.closed by_remote) = connection_closed by_remote
map_event (ConnectionEvent.message payload) = message payload
map_event (ConnectionEvent.congestion_state_changed c) = connection_congestion_state_changed c
map_event (ConnectionEvent.packet_lost payload) = packet_lost payload

module _ {F R M S A : Type 0} where
  unfoldable pub new : Config F → ℕ → Outcome (Client F R M S A)
  new config now = do
    ticker ← Ticker.new config now
    done (record {
      config = config;
      socket = none;
      link = none;
      ticker = ticker;
      peer_address = none;
      local_address = none;
      events = [];
      should_receive = false;
      stats_collector = Stats.new config;
      stats = record { bytes_sent = 0; bytes_received = 0 };
    })

  unfoldable pub set_config : Config F → Client F R M S A → Outcome (Client F R M S A)
  set_config config c = do
    ticker ← Ticker.set_config config c.ticker
    done (record c {
      config = config;
      ticker = ticker;
      stats_collector = Stats.set_config config c.stats_collector;
      link = elim c.link [ none ↦ none | some k ↦ some (Peer.set_config config k) ];
    })

  -- The connection that `connect` makes, with a random id.
  unfoldable pub connection_of : Host F R M S A → Config F → ℕ → A → A → Clock → Connection F R M A
  connection_of h config random local_addr peer_addr clock =
      Peer.new h.env.ops config random local_addr peer_addr
        (h.env.limiter.new_limiter config (λ i. clock (i + 2))) (h.env.modifier.new_modifier config)
        clock

  -- `resolved` is what `to_socket_addrs` makes of the address.
  unfoldable pub connect_from :
      Host F R M S A
      → Option (List A)
      → ℕ
      → Clock
      → S
      → Client F R M S A
      → Outcome (Client F R M S A × Result Error Unit)
  unfolding connection_of
  connect_from h none random clock socket c = done (c, err socket_error)
  connect_from h (some []) random clock socket c = panic
  connect_from h (some (peer_addr ∷ rest)) random clock socket c = elim (h.net.local_addr socket) [
    | none ↦ done (c, err socket_error)
    | some local_addr ↦ done (
      record c {
        socket = some socket;
        peer_address = some peer_addr;
        local_address = some local_addr;
        link = some (connection_of h c.config random local_addr peer_addr clock);
        should_receive = true;
      },
      ok tt,
    )
  ]

  unfoldable pub connect :
      Host F R M S A
      → Option (List A)
      → ℕ
      → Clock
      → Client F R M S A
      → Outcome (Client F R M S A × Result Error Unit)
  unfolding connect_from
  connect h resolved random clock c = elim c.socket [
    | some socket ↦ done (c, err already_exists)
    | none ↦ elim (h.net.new_socket h.any_addr c.config.packet_max_size) [
      | none ↦ done (c, err socket_error)
      | some socket ↦ connect_from h resolved random clock socket c
    ]
  ]

  -- A datagram, from the peer or from elsewhere, and the bytes that were received so far.
  unfoldable pub receive_datagram :
      Host F R M S A
      → Clock
      → A
      → A
      → List ℕ
      → Connection F R M A
      → ℕ
      → Outcome (Connection F R M A × ℕ)
  unfolding receive_packet
  receive_datagram h clock peer addr packet k bytes =
      if h.same_addr addr peer
      then receive_packet h.env packet clock k >>= (λ r. done (r.0, bytes + length packet))
      else done (k, bytes)

  unfoldable pub receive_loop :
      ℕ
      → Host F R M S A
      → Clock
      → A
      → S
      → Connection F R M A
      → ℕ
      → Outcome (S × Connection F R M A × ℕ)
  unfolding receive_datagram
  receive_loop zero h clock peer socket k bytes = stuck
  receive_loop (suc fuel) h clock peer socket k bytes =
      let (received, socket') = h.net.try_recv socket in
      elim received [
        | none ↦ done (socket', k, bytes)
        | some (addr, packet) ↦
            receive_datagram h clock peer addr packet k bytes
            >>= (λ r. receive_loop fuel h (λ i. clock (suc i)) peer socket' r.0 r.1)
      ]

  -- What `receive` does once per tick.
  unfoldable pub receive_all :
      ℕ → Host F R M S A → Clock → S → Client F R M S A → Outcome (Client F R M S A)
  unfolding receive_loop map_event
  receive_all fuel h clock socket c = do
    peer ← unwrap c.peer_address
    k ← unwrap c.link
    (socket', k', bytes) ← receive_loop fuel h (λ i. clock (suc i)) peer socket k 0
    collector ← Stats.set_bytes_received (bytes % 2 ^ 32) c.stats_collector
    let (events, k'') = Peer.events k'
    done (record c {
      ticker = Ticker.begin_tick (clock 0) c.ticker;
      socket = some socket';
      link = some k'';
      stats_collector = collector;
      events = c.events ++ map map_event events;
      should_receive = false;
    })

  unfoldable pub pop_event : Client F R M S A → Client F R M S A × Result TryRecvError ClientEvent
  pop_event c = elim c.events [ [] ↦ (c, err empty) | e ∷ es ↦ (record c { events = es }, ok e) ]

  unfoldable pub receive :
      ℕ
      → Host F R M S A
      → Clock
      → Client F R M S A
      → Outcome (Client F R M S A × Result TryRecvError ClientEvent)
  unfolding receive_all pop_event
  receive fuel h clock c = elim c.socket [
    | none ↦ done (c, err disconnected)
    | some socket ↦ do
      c' ← if c.should_receive then receive_all fuel h clock socket c else done c
      done (pop_event c')
  ]

  -- The time that the thread sleeps comes with the client; the tick ends at the instant `now`.
  unfoldable pub send :
      Bool
      → Host F R M S A
      → Clock
      → ℕ
      → Client F R M S A
      → Outcome (Client F R M S A × Result Error Unit × ℕ)
  send auto_tick h clock now c = elim c.socket [
    | none ↦ done (c, err not_connected, 0)
    | some socket ↦ do
      peer ← unwrap c.peer_address
      k ← unwrap c.link
      (k', socket', bytes) ← Send.send_packet h.env h.net socket peer clock k
      collector ← Stats.set_bytes_sent bytes c.stats_collector
      let collector' = Stats.tick collector
      let c' = record c {
        socket = some socket';
        link = some k';
        stats_collector = collector';
        stats = Stats.average collector';
        should_receive = true;
      }
      (ticker, sleep) ←
          if auto_tick then Ticker.end_tick h.env.ops now c.ticker else done (c.ticker, 0)
      done (record c' { ticker = ticker }, ok tt, sleep)
  ]

  unfoldable pub reset :
      Host F R M S A → Clock → ℕ → Client F R M S A → Outcome (Client F R M S A × Result Error Unit)
  reset h clock now c = elim c.socket [
    | none ↦ done (c, err not_connected)
    | some socket ↦ do
      k ← unwrap c.link
      done (
        record c {
          link = some (Peer.reset h.env clock k);
          stats_collector = Stats.reset c.stats_collector;
          stats = Stats.reset_stats c.stats;
          events = [];
          ticker = Ticker.reset now c.ticker;
        },
        ok tt,
      )
  ]

  unfoldable pub disconnect :
      Host F R M S A → Clock → ℕ → Client F R M S A → Outcome (Client F R M S A × Result Error Unit)
  unfolding reset
  disconnect h clock now c = elim c.socket [
    | none ↦ done (c, err not_connected)
    | some socket ↦ do
      (c', ignored) ← reset h clock now c
      done (
        record c' {
          should_receive = false;
          peer_address = none;
          local_address = none;
          link = none;
          socket = none;
        },
        ok tt,
      )
  ]
