-- ===== src/Client/Access.antt =====
-- src/client.rs: what the client gives access to.
use cobalt_rs.Common.{none, some}
use cobalt_rs.Connection.{Connection}
use cobalt_rs.Client.{Client, Error, addr_not_available, not_connected, Result, ok, err}

module _ {F R M S A : Type 0} where
  unfoldable pub peer_addr : Client F R M S A → Result Error A
  peer_addr c = elim c.peer_address [ some addr ↦ ok addr | none ↦ err addr_not_available ]

  unfoldable pub local_addr : Client F R M S A → Result Error A
  local_addr c = elim c.local_address [ some addr ↦ ok addr | none ↦ err addr_not_available ]

  -- `connection`: what the caller can change.
  unfoldable pub connection_mut : Client F R M S A → Result Error (Connection F R M A)
  connection_mut c = elim c.link [ some k ↦ ok k | none ↦ err not_connected ]

  -- `socket`: what the caller can change.
  unfoldable pub socket_mut : Client F R M S A → Result Error S
  socket_mut c = elim c.socket [ some socket ↦ ok socket | none ↦ err not_connected ]
