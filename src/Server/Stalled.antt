-- ===== src/Server/Stalled.antt =====
-- src/server.rs: packets that have the id of a connection and are shorter than a header.
use cobalt_rs.Common.{
  ℕ, ◌-◌, ◌<◌, ◌≡◌, refl, ap₂, List, [], ◌∷◌, length, some, Bool, true, false, ltb, ==_iff, done,
  panic, arith,
}
use cobalt_rs.Config.{Config}
use cobalt_rs.Traits.{Clock, Env}
use cobalt_rs.Connection as Peer
use cobalt_rs.Connection.{Connection, ConnectionEvent, failed_to_connect, push_event}
use cobalt_rs.Connection.Receive.{receive_packet}
use cobalt_rs.Connection.Send.{send_packet, update_send_state, send_in_state, fail_with}
use cobalt_rs.MessageQueue
use cobalt_rs.Client.{Host, connection_of}
use cobalt_rs.Server.{Server, ServerEvent, insert, map_connection_events, map_events, map_event}
use cobalt_rs.Server.Receive.{receive_connection_packet, receive_new}
use cobalt_rs.Server.Send.{send, send_all, drop_connections, close_lost}

module _ {F R M A : Type 0} where
  short_packet :
      (e : Env F R M) (packet : List ℕ) (clock : Clock) (k : Connection F R M A)
      → length packet < 14
      → receive_packet e packet clock k ≡ done (k, false)
  unfolding receive_packet
  short_packet e packet clock k h =
      let short : ltb (length packet) 14 ≡ true = ground arith in rw short refl

module _ {F R M S A : Type 0} where
  -- No connection, no address and none to be dropped.
  pub record IsEmpty (s : Server F R M S A) : Type 0 where
    pub no_connections : s.connections ≡ []
    pub no_addresses : s.addresses ≡ []
    pub none_dropped : s.dropped ≡ []

  -- The connection that the first packet with an id makes.
  abbrev first_connection : Host F R M S A → Config F → ℕ → ℕ → A → A → Clock → Connection F R M A
  first_connection h config random id local_addr addr clock =
      Peer.set_id id (connection_of h config random local_addr addr clock)

  received_short :
      (h : Host F R M S A) (clocks : ℕ → Clock) (random id : ℕ) (local_addr addr : A)
      (packet : List ℕ) (s : Server F R M S A)
      → IsEmpty s
      → s.local_address ≡ some local_addr
      → length packet < 14
      → receive_connection_packet h clocks random id addr packet s
        ≡ done (
          record s {
            connections =
                (id, first_connection h s.config random id local_addr addr (clocks 0)) ∷ [];
            addresses = (id, addr) ∷ [];
          },
          length packet,
        )
  unfolding receive_connection_packet receive_new
  received_short h clocks random id local_addr addr packet s empty local short =
      rw
        (
          empty.no_connections,
          local,
          receive_connection_packet,
          receive_new,
          short_packet h.env packet (clocks 1)
              (first_connection h s.config random id local_addr addr (clocks 0)) short,
        )
        (ap₂
          (λ cs places. done (
            record s {
              connections =
                  insert id (first_connection h s.config random id local_addr addr (clocks 0)) cs;
              addresses = insert id addr places;
              local_address = some local_addr;
            },
            length packet,
          ))
          empty.no_connections empty.no_addresses)

  sent_late :
      (h : Host F R M S A) (clock : Clock) (config : Config F) (random id : ℕ) (local_addr addr : A)
      (start : Clock) (socket : S)
      → config.connection_init_threshold < clock 0 - start 0
      → send_packet h.env h.net socket addr clock
          (first_connection h config random id local_addr addr start)
        ≡ done (
          (fail_with failed_to_connect ConnectionEvent.failed_to_connect
              (first_connection h config random id local_addr addr start)).0,
          socket,
          0,
        )
  unfolding send_packet update_send_state send_in_state Peer.new Peer.set_id connection_of
  sent_late h clock config random id local_addr addr start socket late =
      let yes : ltb config.connection_init_threshold (clock 0 - start 0) ≡ true = ground arith in
      rw yes refl

  send_all_panics :
      (h : Host F R M S A) (clocks : ℕ → Clock) (config : Config F) (random id : ℕ)
      (local_addr addr : A) (start : Clock) (socket : S) (events : List ServerEvent)
      → config.connection_init_threshold < clocks 0 0 - start 0
      → send_all h clocks
          ((id, addr) ∷ [])
          ((id, first_connection h config random id local_addr addr start) ∷ [])
          socket
          events
          0
        ≡ panic
  unfolding send_all close_lost fail_with push_event Peer.is_open Peer.new Peer.set_id connection_of
      map_connection_events map_events map_event Peer.events MessageQueue.received
  send_all_panics h clocks config random id local_addr addr start socket events late =
      rw
        (
          (==_iff id id).1 refl,
          sent_late h (clocks 0) config random id local_addr addr start socket late,
        )
        refl

  -- A datagram of less than 14 bytes with an id makes an empty server panic: it is received, and if
  -- the next call is a `send` after the init threshold has passed, that panics at the event that the
  -- code takes for unreachable.
  pub short_datagram_panics :
      (h : Host F R M S A) (clocks clocks' : ℕ → Clock) (random id now : ℕ) (local_addr addr : A)
      (socket : S) (packet : List ℕ) (auto_tick : Bool) (s : Server F R M S A)
      → IsEmpty s
      → s.socket ≡ some socket
      → s.local_address ≡ some local_addr
      → length packet < 14
      → s.config.connection_init_threshold < clocks' 0 0 - clocks 0 0
      → (s' : Server F R M S A) × (receive_connection_packet h clocks random id addr packet s
          ≡ done (s', length packet))
        × (send auto_tick h clocks' now s' ≡ panic)
  unfolding send drop_connections
  short_datagram_panics h clocks clocks' random id now local_addr addr socket packet auto_tick s
        empty bound local short late =
      (
        record s {
          connections = (id, first_connection h s.config random id local_addr addr (clocks 0)) ∷ [];
          addresses = (id, addr) ∷ [];
        },
        received_short h clocks random id local_addr addr packet s empty local short,
        rw
            (
              bound,
              empty.none_dropped,
              send,
              drop_connections,
              send_all_panics h clocks' s.config random id local_addr addr (clocks 0) socket
                  s.events late,
            )
            refl,
      )
