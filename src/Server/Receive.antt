-- ===== src/Server/Receive.antt =====
-- src/server.rs: `accept_receive` and what it calls.
use cobalt_rs.Common.{
  ℕ, zero, suc, ◌+◌, ◌%◌, ◌^◌, List, [], ◌∷◌, length, none, some, false, not, ◌&&◌, if◌then◌else◌,
  Outcome, done, stuck, unwrap, ◌>>=◌,
}
use cobalt_rs.Traits.{Clock}
use cobalt_rs.Connection as Peer
use cobalt_rs.Connection.{Connection, ConnectionEvent, id_from_packet}
use cobalt_rs.Connection.Receive.{receive_packet}
use cobalt_rs.Stats
use cobalt_rs.Stats.{Stats, StatsCollector}
use cobalt_rs.Ticker
use cobalt_rs.Ticker.{Ticker}
use cobalt_rs.Client.{Host, TryRecvError, empty, disconnected, Result, ok, err, connection_of}
use cobalt_rs.Server.{Server, ServerEvent, lookup, remove, insert, map_connection_events}

module _ {F R M S A : Type 0} where
  -- A packet of a known connection. The address follows the packets that are consumed.
  unfoldable pub receive_known :
      Host F R M S A
      → Clock
      → ℕ
      → A
      → List ℕ
      → Connection F R M A
      → Server F R M S A
      → Outcome (Server F R M S A)
  unfolding receive_packet map_connection_events
  receive_known h clock id addr packet k s = do
    (k1, consumed) ← receive_packet h.env packet clock k
    let moved = consumed && not (h.same_addr addr k1.peer_address)
    (events, k2) ← map_connection_events s.events (if moved then Peer.set_peer_addr addr k1 else k1)
    done (record s {
      connections = insert id k2 s.connections;
      addresses = if moved then insert id addr (remove id s.addresses) else s.addresses;
      events = events;
    })

  -- The first packet with an id. The events are mapped only if the packet is consumed.
  unfoldable pub receive_new :
      Host F R M S A
      → (ℕ → Clock)
      → ℕ
      → ℕ
      → A
      → List ℕ
      → Server F R M S A
      → Outcome (Server F R M S A)
  unfolding receive_packet map_connection_events connection_of
  receive_new h clocks random id addr packet s = do
    local_addr ← unwrap s.local_address
    let k = Peer.set_id id (connection_of h s.config random local_addr addr (clocks 0))
    (k1, consumed) ← receive_packet h.env packet (clocks 1) k
    (events, k2) ← if consumed then map_connection_events s.events k1 else done (s.events, k1)
    done (record s {
      connections = insert id k2 s.connections;
      addresses = insert id addr s.addresses;
      events = events;
    })

  unfoldable pub receive_connection_packet :
      Host F R M S A
      → (ℕ → Clock)
      → ℕ
      → ℕ
      → A
      → List ℕ
      → Server F R M S A
      → Outcome (Server F R M S A × ℕ)
  unfolding receive_known receive_new
  receive_connection_packet h clocks random id addr packet s = do
    s' ← elim (lookup id s.connections) [
      | some k ↦ receive_known h (clocks 1) id addr packet k s
      | none ↦ receive_new h clocks random id addr packet s
    ]
    done (s', length packet)

  -- A datagram without an id is dropped.
  unfoldable pub receive_datagram :
      Host F R M S A
      → (ℕ → Clock)
      → ℕ
      → A
      → List ℕ
      → Server F R M S A
      → ℕ
      → Outcome (Server F R M S A × ℕ)
  unfolding receive_connection_packet id_from_packet
  receive_datagram h clocks random addr packet s bytes = elim (id_from_packet s.config packet) [
    | none ↦ done (s, bytes)
    | some id ↦
        receive_connection_packet h clocks random id addr packet s
        >>= (λ r. done (r.0, bytes + r.1))
  ]

  -- The loop over the datagrams, with the bytes of those that have an id.
  unfoldable pub receive_loop :
      ℕ
      → Host F R M S A
      → (ℕ → ℕ → Clock)
      → (ℕ → ℕ)
      → S
      → Server F R M S A
      → ℕ
      → Outcome (S × Server F R M S A × ℕ)
  unfolding receive_datagram
  receive_loop zero h clocks random socket s bytes = stuck
  receive_loop (suc fuel) h clocks random socket s bytes =
      let (received, socket') = h.net.try_recv socket in
      elim received [
        | none ↦ done (socket', s, bytes)
        | some (addr, packet) ↦
            receive_datagram h (clocks 0) (random 0) addr packet s bytes >>= (λ r.
              receive_loop fuel h (λ i. clocks (suc i)) (λ i. random (suc i)) socket' r.0 r.1)
      ]

  unfoldable pub receive_all :
      ℕ
      → Host F R M S A
      → ℕ
      → (ℕ → ℕ → Clock)
      → (ℕ → ℕ)
      → S
      → Server F R M S A
      → Outcome (Server F R M S A)
  unfolding receive_loop
  receive_all fuel h now clocks random socket s = do
    let begun = record s { ticker = Ticker.begin_tick now s.ticker }
    (socket', s', bytes) ← receive_loop fuel h clocks random socket begun 0
    collector ← Stats.set_bytes_received (bytes % 2 ^ 32) s'.stats_collector
    done (record s' { socket = some socket'; stats_collector = collector; should_receive = false })

  unfoldable pub pop_event : Server F R M S A → Server F R M S A × Result TryRecvError ServerEvent
  pop_event s = elim s.events [ [] ↦ (s, err empty) | e ∷ es ↦ (record s { events = es }, ok e) ]

  unfoldable pub accept_receive :
      ℕ
      → Host F R M S A
      → ℕ
      → (ℕ → ℕ → Clock)
      → (ℕ → ℕ)
      → Server F R M S A
      → Outcome (Server F R M S A × Result TryRecvError ServerEvent)
  unfolding receive_all pop_event
  accept_receive fuel h now clocks random s = elim s.socket [
    | none ↦ done (s, err disconnected)
    | some socket ↦ do
      s' ← if s.should_receive then receive_all fuel h now clocks random socket s else done s
      done (pop_event s')
  ]
