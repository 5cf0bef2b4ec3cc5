-- ===== src/Lib.antt =====
-- cobalt: virtual connections over UDP with unreliable, reliable and ordered messages.
--
-- Parts (paths from the repository's root):
--   Config        src/shared/config.rs: the configuration, and the operations of `f32`.
--   Message       src/shared/message_queue.rs: a message and its bytes in a packet.
--   MessageQueue  src/shared/message_queue.rs: the queues of outgoing and incoming messages. Two of
--                 them and the packets between them are a step relation (MessageQueue/Channel).
--   Sequence      src/shared/connection.rs: packet sequence numbers and the ack bitfield.
--   Traits        src/traits: socket, rate limiter and packet modifier, as records of operations.
--   Connection    src/shared/connection.rs: the state of a connection, `receive_packet`
--                 (Connection/Receive), `send_packet` (Connection/Send) and the state diagram
--                 (Connection/Machine), what holds between two calls (Connection/Invariant) and over
--                 histories of calls (Connection/Histories); how a packet gets from one connection to another
--                 (Connection/Delivery), and what one that has received nothing acknowledges
--                 (Connection/Unreceived). A connection owns a MessageQueue, a rate limiter and a
--                 packet modifier; Receive and Send call them in the order of the code.
--   UdpSocket     src/shared/udp_socket.rs: the socket over the operating system's.
--   BinaryRateLimiter  src/shared/binary_rate_limiter.rs: the default rate limiter.
--   Stats         src/shared/stats.rs: bytes per second.
--   Ticker        src/shared/ticker.rs: the length of ticks.
--   Client        src/client.rs: the client, over a connection, a ticker and a collector.
--   Server        src/server.rs: the server, over a table of connections, which are made for the
--                 ids of the packets that arrive (Server/Receive, Server/Send); what a caller does with
--                 one of them is a call of Connection/Uses. What its two tables
--                 have to do with each other is in Server/Invariant and Server/Lookups.
--   Common        names, lists, bits, and outcomes that all parts share.
--   Examples      concrete runs.
--
-- A method with `&mut self` takes the old value and returns the new one. A call that can panic
-- returns an `Outcome`. Instants are numbers of nanoseconds, and the clock is a function from the
-- number of a reading to its instant. Loops of the parser and the writer run on fuel, with the
-- packet's length or the number of messages as the bound. The loops over a socket's datagrams run on
-- fuel that the caller gives: more than the number of datagrams that wait is enough.
--
-- The socket, the rate limiter and the packet modifier are parameters of the connection, the client
-- and the server; the operating system's socket is one of UdpSocket, and the operations of `f32` are
-- a parameter without laws. The clock, random ids and the resolution of addresses are arguments of
-- the calls. Not modelled: `Debug` implementations, getters that return a field, what a
-- caller does to the table of connections that the server's `connections` hands out, and its calls of
-- `set_id` and `set_peer_addr` on a connection of a server.
pub mod Common
pub mod Message
pub mod Config
pub mod MessageQueue
mod Examples
pub mod Sequence
pub mod Traits
pub mod UdpSocket
pub mod BinaryRateLimiter
pub mod Stats
pub mod Ticker
pub mod Client
pub mod Server
pub mod Connection
