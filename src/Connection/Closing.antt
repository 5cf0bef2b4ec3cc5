-- ===== src/Connection/Closing.antt =====
-- src/shared/connection.rs: the closing of a connection, from one end to the other.
use cobalt_rs.Common.{
  ℕ, ◌≤◌, ◌<◌, ◌^◌, ◌≡◌, refl, ◌∙◌, List, ◌++◌, true, false, ltb, length, arith, done,
}
use cobalt_rs.Config.{Config}
use cobalt_rs.Traits.{Clock, Env}
use cobalt_rs.Sequence.{u32_bytes}
use cobalt_rs.Connection.{
  Connection, ConnectionState, ConnectionEvent, packet_header_size, closure_packet_data,
  has_protocol_header, byte_at, close, push_event,
}
use cobalt_rs.Connection.Receive.{
  has_closure_data, receive_in_state, update_receive_state, receive_packet,
}
use cobalt_rs.Connection.Send.{packet_prefix, write_packet, modify_packet}
use cobalt_rs.Connection.Delivery.Modifier.{modify_packet-Modified, has_header-id, same_header}
use cobalt_rs.Connection.Invariant.Write.{id_from_packet-prefix}

same_closure_data :
    (packet packet' : List ℕ)
    → ((i : ℕ) → i < packet_header_size → byte_at packet' i ≡ byte_at packet i)
    → has_closure_data packet' ≡ has_closure_data packet
unfolding has_closure_data
same_closure_data packet packet' same =
    rw
      (
        same 8 (omega arith),
        same 9 (omega arith),
        same 10 (omega arith),
        same 11 (omega arith),
        same 12 (omega arith),
        same 13 (omega arith),
      )
      refl

module _ {F : Type 0} where
  -- The packet that a closing connection writes.
  abbrev closure_packet : Config F → ℕ → List ℕ
  closure_packet config id = packet_prefix config id ++ closure_packet_data

  closure_packet-long :
      (config : Config F) (id : ℕ) → packet_header_size ≤ length (closure_packet config id)
  unfolding packet_prefix u32_bytes
  closure_packet-long config id = omega arith

  closure_packet-data :
      (config : Config F) (id : ℕ) → has_closure_data (closure_packet config id) ≡ true
  unfolding packet_prefix u32_bytes has_closure_data byte_at
  closure_packet-data config id = refl

module _ {F R M A : Type 0} where
  -- A connection that is closed writes a closure packet, whatever waits to be sent; another connection
  -- that is connected and has the same protocol header closes when it arrives, with the event for a
  -- closing by the remote end, and changes nothing else. A modifier may change the packet's payload,
  -- which is empty.
  pub close-receive_packet :
      (e : Env F R M) (clock : Clock) (c d : Connection F R M A)
      → c.random_id < 2 ^ 32
      → d.config.protocol_header ≡ c.config.protocol_header
      → d.state ≡ ConnectionState.connected
      → (c' : Connection F R M A) × (written : List ℕ) × (write_packet e (close c).state (close c)
          ≡ done (c', written))
        × (c' ≡ close c)
        × (receive_packet e (modify_packet e written c').1 clock d
            ≡ done (
              push_event
                  (ConnectionEvent.closed true)
                  (record d { state = ConnectionState.closed }),
              false,
            ))
  unfolding close write_packet receive_packet update_receive_state receive_in_state
  close-receive_packet e clock c d small same at =
      let written = closure_packet c.config c.random_id in
      let m =
        modify_packet-Modified e written (close c) (closure_packet-long c.config c.random_id) in
      let packet = (modify_packet e written (close c)).1 in
      let header : has_protocol_header d.config packet ≡ true =
        same_header c.config d.config written packet same m.same_bytes
        ∙ has_header-id c.config written c.random_id
            (id_from_packet-prefix c.config c.random_id closure_packet_data small) in
      let gone : has_closure_data packet ≡ true =
        same_closure_data written packet m.same_bytes ∙ closure_packet-data c.config c.random_id in
      let enough : ltb (length packet) packet_header_size ≡ false = ground (arith, m.still_long) in
      (close c, written, refl, refl, rw (enough, header, at, gone) refl)
