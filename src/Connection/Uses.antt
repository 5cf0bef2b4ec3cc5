-- ===== src/Connection/Uses.antt =====
-- src/shared/connection.rs: what a caller can do with a connection that a server gives.
use cobalt_rs.Common.{ℕ, ◌≡◌, refl, ap, List, Bool, done}
use cobalt_rs.Config.{Config}
use cobalt_rs.Message.{MessageKind}
use cobalt_rs.Traits.{Clock, Env, Socket}
use cobalt_rs.Connection as Peer
use cobalt_rs.Connection.{Connection}
use cobalt_rs.Connection.Receive.{receive_packet}
use cobalt_rs.Connection.Send.{send_packet}
use cobalt_rs.Connection.Names.{receive_packet-name, send_packet-name}

module _ {F R M S A : Type 0} where
  -- A call of a connection, other than `set_id` and `set_peer_addr`.
  pub data Use (e : Env F R M) (net : Socket S A)
      : Connection F R M A → Connection F R M A → Type 0 where
    set_configs :
        {k : Connection F R M A} (config : Config F) → Use e net k (Peer.set_config config k)
    sends :
        {k : Connection F R M A} (kind : MessageKind) (payload : List ℕ)
        → Use e net k (Peer.send kind payload k)
    gives_events : {k : Connection F R M A} → Use e net k (Peer.events k).1
    closes : {k : Connection F R M A} → Use e net k (Peer.close k)
    resets : {k : Connection F R M A} (clock : Clock) → Use e net k (Peer.reset e clock k)
    receives :
        {k k' : Connection F R M A} {consumed : Bool} (packet : List ℕ) (clock : Clock)
        → receive_packet e packet clock k ≡ done (k', consumed)
        → Use e net k k'
    sends_packet :
        {k k' : Connection F R M A} {socket' : S} {sent : ℕ} (socket : S) (addr : A) (clock : Clock)
        → send_packet e net socket addr clock k ≡ done (k', socket', sent)
        → Use e net k k'

  -- Such a call leaves the address of the peer and the id as they are.
  pub Use-place :
      (e : Env F R M) (net : Socket S A) {k k' : Connection F R M A}
      → Use e net k k'
      → (k'.peer_address ≡ k.peer_address) × (k'.random_id ≡ k.random_id)
  unfolding Peer.set_config Peer.send Peer.events Peer.close Peer.reset
  Use-place e net (set_configs config) = (refl, refl)
  Use-place e net (sends kind payload) = (refl, refl)
  Use-place e net gives_events = (refl, refl)
  Use-place e net closes = (refl, refl)
  Use-place e net (resets clock) = (refl, refl)
  Use-place e net (receives {k} packet clock run) =
      let same = receive_packet-name e packet clock k run in
      (ap (λ n. n.2) same, ap (λ n. n.3) same)
  Use-place e net (sends_packet {k} socket addr clock run) =
      let same = send_packet-name e net socket addr clock k run in
      (ap (λ n. n.2) same, ap (λ n. n.3) same)
