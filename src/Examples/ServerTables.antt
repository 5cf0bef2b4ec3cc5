-- ===== src/Examples/ServerTables.antt =====
-- Runs of src/server.rs: a server with two connections, whose peers fall silent.
use cobalt_rs.Common.{
  ℕ, ◌+◌, ◌≡◌, refl, List, [], ◌∷◌, map, false, none, some, Outcome, done, panic, stuck, arith,
  Option, if◌then◌else◌, contains,
}
use cobalt_rs.Traits.{Clock}
use cobalt_rs.Connection as Peer
use cobalt_rs.MessageQueue
use cobalt_rs.Connection.{id_from_packet, Connection}
use cobalt_rs.Stats
use cobalt_rs.Ticker
use cobalt_rs.Client.{Host, Error, Result, ok}
use cobalt_rs.Server.{Server, ServerEvent, new, listen, lookup, insert, connection_mut}
use cobalt_rs.Server.Receive.{receive_loop, receive_connection_packet, accept_receive}
use cobalt_rs.Server.Send.{send, send_all, drop_connections}
use cobalt_rs.Server.Invariant.{IsTabled}
use cobalt_rs.Server.Lookups.{
  send_each, send_all-peer_address, drop_connections-lookup, receive_connection_packet-others,
}
use cobalt_rs.Server.Histories.{
  Reach, starts, continues, listens, uses, accepts, sends, Reach-IsTabled,
}
use cobalt_rs.Connection.Uses.{closes}
use cobalt_rs.Examples.Values.{config}
use cobalt_rs.Examples.Connections.{fresh, hello, hello-IsByte}
use cobalt_rs.Server.Fine.{AllFine}
use cobalt_rs.Server.Loop.{bytes_with_id, server_receive_loop_lem}
use cobalt_rs.Common.{Returns}
use cobalt_rs.Examples.Clients.{host}
use cobalt_rs.Examples.Servers.{listening}
use cobalt_rs.Connection.Send.{send_packet}
use mathlib.Core.Bool.{xor}
use cobalt_rs.Connection.Names.{name}
use cobalt_rs.Server.Tables.{map_values, remove_all}
use cobalt_rs.Server.Sending.{closed_ids}
use cobalt_rs.Server.Invariant.Send.{send_tables}

-- The message 66 with the id 8.
abbrev other_hello : List ℕ
other_hello = 1 ∷ 2 ∷ 3 ∷ 4 ∷ 0 ∷ 0 ∷ 0 ∷ 8 ∷ 0 ∷ 0 ∷ 0 ∷ 0 ∷ 0 ∷ 0 ∷ 0 ∷ 0 ∷ 0 ∷ 1 ∷ 66 ∷ []

-- Two datagrams of the peers 2 and 9 wait where a socket is opened.
abbrev visited : Host ℕ ℕ ℕ (List (ℕ × List ℕ)) ℕ
visited = record host {
  net = record host.net { new_socket = λ addr size. some ((2, hello) ∷ (9, other_hello) ∷ []) };
}

abbrev server_of :
    {B : Type 0}
    → Outcome (Server ℕ ℕ ℕ (List (ℕ × List ℕ)) ℕ × B)
    → Server ℕ ℕ ℕ (List (ℕ × List ℕ)) ℕ
server_of (done (s, b)) = s
server_of panic = listening
server_of stuck = listening

abbrev started : Server ℕ ℕ ℕ (List (ℕ × List ℕ)) ℕ
started = record listening { socket = none; local_address = none; should_receive = false }

abbrev bound : Server ℕ ℕ ℕ (List (ℕ × List ℕ)) ℕ
bound = record listening { socket = some ((2, hello) ∷ (9, other_hello) ∷ []) }

abbrev clocks : ℕ → ℕ → Clock
clocks i j k = 1000 + k

abbrev busy : Server ℕ ℕ ℕ (List (ℕ × List ℕ)) ℕ
busy = server_of (accept_receive 3 visited 1000 clocks (λ i. 77 + i) bound)

-- Both connections were silent for too long when the next call of `send` comes.
abbrev late : ℕ → Clock
late i j = 3000000000 + j

abbrev after_send :
    Outcome (Server ℕ ℕ ℕ (List (ℕ × List ℕ)) ℕ × Result Error Unit × ℕ)
    → Server ℕ ℕ ℕ (List (ℕ × List ℕ)) ℕ
after_send (done (s, r, sleep)) = s
after_send panic = listening
after_send stuck = listening

abbrev silent : Server ℕ ℕ ℕ (List (ℕ × List ℕ)) ℕ
silent = after_send (send false visited late 3000000000 busy)

abbrev busy_reached : Reach visited busy
unfolding new Ticker.new listen accept_receive Peer.set_id Peer.new Peer.events
    MessageQueue.received MessageQueue.receive_packet MessageQueue.new Stats.set_bytes_received
    Stats.new
busy_reached =
    continues
      (continues (starts {s = started} config 5 refl)
        (listens {s' = bound} {r = ok tt} (some (1 ∷ [])) refl))
      (accepts {s' = busy} {r = ok (ServerEvent.connection 9)} 3 1000 clocks (λ i. 77 + i) refl)

-- The first of the connections, which its caller closes.
abbrev found : Option (Connection ℕ ℕ ℕ ℕ) → Connection ℕ ℕ ℕ ℕ
found none = fresh
found (some k) = k

abbrev first : Connection ℕ ℕ ℕ ℕ
first = found (lookup 9 busy.connections)

abbrev closing_first : Server ℕ ℕ ℕ (List (ℕ × List ℕ)) ℕ
closing_first = record busy { connections = insert 9 (Peer.close first) busy.connections }

closing_first_reached : Reach visited closing_first
unfolding new Ticker.new listen accept_receive Peer.set_id Peer.new Peer.events
    MessageQueue.received MessageQueue.receive_packet MessageQueue.new Stats.set_bytes_received
    Stats.new connection_mut
closing_first_reached =
    continues busy_reached (uses {s = busy} 9 first (Peer.close first) refl closes)

Reach-IsTabled_example : IsTabled closing_first
Reach-IsTabled_example = Reach-IsTabled visited closing_first_reached

two_connections : map (λ x. x.0) busy.connections ≡ 9 ∷ 8 ∷ []
unfolding accept_receive Peer.set_id Peer.new Peer.events MessageQueue.received
    MessageQueue.receive_packet MessageQueue.new Stats.set_bytes_received Stats.new
two_connections = refl

send_all-peer_address_example :
    send_all visited late busy.addresses busy.connections [] [] 0
    ≡ send_each visited late busy.connections [] [] 0
send_all-peer_address_example =
    send_all-peer_address visited late busy [] [] 0 (Reach-IsTabled visited busy_reached)

abbrev silent_reached : Reach visited silent
unfolding send send_packet xor Peer.is_open Stats.set_bytes_sent accept_receive Peer.set_id Peer.new
    Peer.events MessageQueue.received MessageQueue.receive_packet MessageQueue.new
    Stats.set_bytes_received Stats.new
silent_reached =
    continues busy_reached (sends {s' = silent} {r = ok tt} {sleep = 0} false late 3000000000 refl)

both_dropped : silent.dropped ≡ 9 ∷ 8 ∷ []
unfolding send send_packet xor Peer.is_open Stats.set_bytes_sent accept_receive Peer.set_id Peer.new
    Peer.events MessageQueue.received MessageQueue.receive_packet MessageQueue.new
    Stats.set_bytes_received Stats.new
both_dropped = refl

drop_connections-lookup_example :
    (s' : Server ℕ ℕ ℕ (List (ℕ × List ℕ)) ℕ) × (drop_connections silent.dropped silent ≡ done s')
    × (s'.dropped ≡ [])
    × ((j : ℕ)
        → (lookup j s'.connections
            ≡ (if contains j silent.dropped then none else lookup j silent.connections))
          × (lookup j s'.addresses
              ≡ (if contains j silent.dropped then none else lookup j silent.addresses)))
drop_connections-lookup_example =
    drop_connections-lookup silent (Reach-IsTabled visited silent_reached)

send_tables_example :
    (map_values name silent.connections
      ≡ map_values name (remove_all busy.dropped busy.connections))
    × (silent.addresses ≡ remove_all busy.dropped busy.addresses)
    × (silent.dropped ≡ closed_ids silent.connections)
unfolding send send_packet xor Peer.is_open Stats.set_bytes_sent accept_receive Peer.set_id Peer.new
    Peer.events MessageQueue.received MessageQueue.receive_packet MessageQueue.new
    Stats.set_bytes_received Stats.new
send_tables_example =
    send_tables false visited late 3000000000 busy [] {r = (silent, ok tt, 0)}
      (Reach-IsTabled visited busy_reached) refl refl

-- A second datagram with the id 9.
abbrev again : Outcome (Server ℕ ℕ ℕ (List (ℕ × List ℕ)) ℕ × ℕ)
again = receive_connection_packet visited (clocks 5) 80 9 2 hello busy

receive_connection_packet-others_example :
    (lookup 8 (server_of again).connections ≡ lookup 8 busy.connections)
    × (lookup 8 (server_of again).addresses ≡ lookup 8 busy.addresses)
    × ((server_of again).dropped ≡ busy.dropped)
unfolding receive_connection_packet xor accept_receive Peer.set_id Peer.new Peer.events
    MessageQueue.received MessageQueue.receive_packet MessageQueue.new Stats.set_bytes_received
    Stats.new
receive_connection_packet-others_example =
    receive_connection_packet-others visited (clocks 5) 80 9 2 hello busy
      {r = (server_of again, 19)} 8 (ground arith) refl

-- The hello of the peers 2 and 9 waits, and a datagram without an id.
abbrev three_datagrams : List (ℕ × List ℕ)
three_datagrams = (2, hello) ∷ (9, hello) ∷ (4, 1 ∷ 2 ∷ []) ∷ []

server_receive_loop_lem_example :
    Returns (receive_loop 4 host clocks (λ i. 77 + i) three_datagrams listening 0) (λ r.
      (r.0 ≡ [])
      × AllFine (clocks 3 1 0) r.1.connections
      × (r.2 ≡ 0 + bytes_with_id listening.config three_datagrams))
server_receive_loop_lem_example =
    server_receive_loop_lem host three_datagrams 4 clocks (λ i. 77 + i) 1 three_datagrams [] 1000
      listening 0 (omega arith)
      ((9, hello) ∷ (4, 1 ∷ 2 ∷ []) ∷ [], refl, ((4, 1 ∷ 2 ∷ []) ∷ [], refl, ([], refl, refl)))
      (hello-IsByte, (hello-IsByte, ((omega arith, (omega arith, tt)), tt))) (λ i. omega arith)
      (omega arith) (omega arith) refl tt
