-- ===== src/Server/Access.antt =====
-- src/server.rs: what the server gives access to.
use cobalt_rs.Common.{none, some}
use cobalt_rs.Client.{Error, addr_not_available, not_connected, Result, ok, err}
use cobalt_rs.Server.{Server}

module _ {F R M S A : Type 0} where
  unfoldable pub local_addr : Server F R M S A → Result Error A
  local_addr s = elim s.local_address [ some addr ↦ ok addr | none ↦ err addr_not_available ]

  -- `socket`: what the caller can change.
  unfoldable pub socket_mut : Server F R M S A → Result Error S
  socket_mut s = elim s.socket [ some socket ↦ ok socket | none ↦ err not_connected ]
