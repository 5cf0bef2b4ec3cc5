-- ===== src/Server/Send.antt =====
-- src/server.rs: `send` and what it calls.
use cobalt_rs.Common.{
  ℕ, suc, List, [], ◌∷◌, ◌++◌, none, some, Bool, true, if◌then◌else◌, Outcome, done, unwrap, ◌>>=◌,
}
use cobalt_rs.Traits.{Clock}
use cobalt_rs.Connection as Peer
use cobalt_rs.Connection.{Connection, ConnectionEvent, id_from_packet}
use cobalt_rs.Connection.Send
use cobalt_rs.Stats
use cobalt_rs.Stats.{Stats, StatsCollector}
use cobalt_rs.Ticker
use cobalt_rs.Ticker.{Ticker}
use cobalt_rs.Client.{Host, Error, not_connected, Result, ok, err}
use cobalt_rs.Server.{Server, ServerEvent, Table, lookup, remove, map_connection_events}

module _ {F R M A : Type 0} where
  -- What `send` does for one connection: the events, the connection, and the ids that are dropped.
  unfoldable pub close_lost :
      ℕ
      → List ServerEvent
      → Connection F R M A
      → Outcome (List ServerEvent × Connection F R M A × List ℕ)
  unfolding map_connection_events
  close_lost id events k =
      if Peer.is_open k
      then done (events, k, [])
      else map_connection_events events k >>= (λ r. done (r.0, r.1, id ∷ []))

module _ {F R M S A : Type 0} where
  -- The connections that were found closed are taken out of both tables; that a connection is reset
  -- before it is dropped has no further effect.
  unfoldable pub drop_connections : List ℕ → Server F R M S A → Outcome (Server F R M S A)
  drop_connections [] s = done (record s { dropped = [] })
  drop_connections (id ∷ ids) s = do
    k ← unwrap (lookup id s.connections)
    drop_connections ids
        (record s { connections = remove id s.connections; addresses = remove id s.addresses })

  -- The socket, the connections, the events, the dropped ids and the bytes after the loop.
  unfoldable pub send_all :
      Host F R M S A
      → (ℕ → Clock)
      → Table A
      → Table (Connection F R M A)
      → S
      → List ServerEvent
      → ℕ
      → Outcome (S × Table (Connection F R M A) × List ServerEvent × List ℕ × ℕ)
  unfolding close_lost
  send_all h clocks addresses [] socket events bytes = done (socket, [], events, [], bytes)
  send_all h clocks addresses ((id, k) ∷ rest) socket events bytes = do
    addr ← unwrap (lookup id addresses)
    (k1, socket1, sent) ← Send.send_packet h.env h.net socket addr (clocks 0) k
    total ← Stats.checked_add bytes sent
    (events1, k2, gone) ← close_lost id events k1
    (socket2, rest', events2, gone', bytes') ←
        send_all h (λ i. clocks (suc i)) addresses rest socket1 events1 total
    done (socket2, (id, k2) ∷ rest', events2, gone ++ gone', bytes')

  unfoldable pub send :
      Bool
      → Host F R M S A
      → (ℕ → Clock)
      → ℕ
      → Server F R M S A
      → Outcome (Server F R M S A × Result Error Unit × ℕ)
  unfolding drop_connections send_all
  send auto_tick h clocks now s = elim s.socket [
    | none ↦ done (s, err not_connected, 0)
    | some socket ↦ do
      s1 ← drop_connections s.dropped s
      (socket', connections, events, dropped, bytes) ←
          send_all h clocks s1.addresses s1.connections socket s1.events 0
      collector ← Stats.set_bytes_sent bytes s1.stats_collector
      let collector' = Stats.tick collector
      let s2 = record s1 {
        socket = some socket';
        connections = connections;
        events = events;
        dropped = dropped;
        stats_collector = collector';
        stats = Stats.average collector';
        should_receive = true;
      }
      (ticker, sleep) ←
          if auto_tick then Ticker.end_tick h.env.ops now s1.ticker else done (s1.ticker, 0)
      done (record s2 { ticker = ticker }, ok tt, sleep)
  ]
