-- ===== src/Server/Invariant/Receive.antt =====
-- src/server.rs: the tables under `accept_receive`.
use cobalt_rs.Common.{
  ℕ, ◌≡◌, refl, sym, ap, subst, ◌∙◌, List, Option, none, some, Bool, true, false, not, ◌&&◌, ◌==◌,
  if◌then◌else◌, ==_iff, Bool-cases, inl, inr, done, returns, done-injective, unwrap, ◌>>=◌, length,
}
use cobalt_rs.Traits.{Clock}
use cobalt_rs.Connection as Peer
use cobalt_rs.Connection.{Connection}
use cobalt_rs.Connection.Receive.{receive_packet}
use cobalt_rs.Connection.Names.{name, receive_packet-name}
use cobalt_rs.Client.{Host, connection_of}
use cobalt_rs.Server.{Server, ServerEvent, lookup, remove, insert, map_connection_events}
use cobalt_rs.Server.Receive.{receive_known, receive_new, receive_connection_packet}
use cobalt_rs.Server.Tables.{lookup-insert, lookup-remove}
use cobalt_rs.Server.Invariant.{IsTabled, put-IsTabled}
use cobalt_rs.Server.Sending.{map_connection_events-name}

module _ {F R M S A : Type 0} where
  receive_known-IsTabled :
      (h : Host F R M S A) (clock : Clock) (id : ℕ) (addr : A) (packet : List ℕ)
      (k : Connection F R M A) (s : Server F R M S A) {s' : Server F R M S A}
      → IsTabled s
      → lookup id s.connections ≡ some k
      → receive_known h clock id addr packet k s ≡ done s'
      → IsTabled s'
  unfolding receive_known Peer.set_peer_addr
  receive_known-IsTabled h clock id addr packet k s inv at run =
      let ((k1, consumed), run1, run2) = returns (receive_packet h.env packet clock k) run in
      let ((events, k2), run3, last) =
        returns
          (map_connection_events s.events (
            if consumed && not (h.same_addr addr k1.peer_address)
            then Peer.set_peer_addr addr k1
            else k1))
          run2 in
      subst IsTabled (done-injective last) (
        moving (consumed && not (h.same_addr addr k1.peer_address)) k1 k2 events
          (receive_packet-name h.env packet clock k run1)
          (map_connection_events-name s.events
            (if consumed && not (h.same_addr addr k1.peer_address)
              then Peer.set_peer_addr addr k1
              else k1)
            run3))
    where
      moving :
          (moved : Bool) (k1 k2 : Connection F R M A) (events : List ServerEvent)
          → name k1 ≡ name k
          → name k2 ≡ name (if moved then Peer.set_peer_addr addr k1 else k1)
          → IsTabled (record s {
            connections = insert id k2 s.connections;
            addresses = if moved then insert id addr (remove id s.addresses) else s.addresses;
            events = events;
          })
      moving true k1 k2 events same same2 =
          put-IsTabled id k2 (insert id addr (remove id s.addresses)) events s inv
            (ap (λ n. n.3) (same2) ∙ ap (λ n. n.3) same ∙ inv.own_ids id k at)
            (λ j. lookup-insert j id addr (remove id s.addresses) ∙ elim (Bool-cases (id == j)) [
              | inl hit ↦ rw hit (ap (λ n. some n.2) (sym same2))
              | inr miss ↦ rw miss (lookup-remove j id s.addresses ∙ rw miss refl)
            ])
      moving false k1 k2 events same same2 =
          put-IsTabled id k2 s.addresses events s inv
            (ap (λ n. n.3) same2 ∙ ap (λ n. n.3) same ∙ inv.own_ids id k at)
            (λ j. elim (Bool-cases (id == j)) [
              | inl hit ↦ rw hit (
                  sym (ap (λ i. lookup i s.addresses) ((==_iff id j).0 hit))
                  ∙ inv.same_places id
                  ∙ rw at (ap (λ n. some n.2) (sym (same2 ∙ same))))
              | inr miss ↦ rw miss refl
            ])

  receive_new-IsTabled :
      (h : Host F R M S A) (clocks : ℕ → Clock) (random id : ℕ) (addr : A) (packet : List ℕ)
      (s : Server F R M S A) {s' : Server F R M S A}
      → IsTabled s
      → receive_new h clocks random id addr packet s ≡ done s'
      → IsTabled s'
  unfolding receive_new Peer.set_id connection_of Peer.new
  receive_new-IsTabled h clocks random id addr packet s inv run =
      let (local_addr, at, run1) = returns (unwrap s.local_address) run in
      let fresh : Connection F R M A =
        Peer.set_id id (connection_of h s.config random local_addr addr (clocks 0)) in
      let ((k1, consumed), run2, run3) =
        returns (receive_packet h.env packet (clocks 1) fresh) run1 in
      let ((events, k2), run4, last) =
        returns (if consumed then map_connection_events s.events k1 else done (s.events, k1))
          run3 in
      let same =
        mapped consumed k1 k2 events run4
        ∙ receive_packet-name h.env packet (clocks 1) fresh run2 in
      subst IsTabled (done-injective last) (
        put-IsTabled id k2 (insert id addr s.addresses) events s inv (ap (λ n. n.3) same) (λ j.
          lookup-insert j id addr s.addresses
          ∙ ap (λ n. if id == j then some n.2 else lookup j s.addresses) (sym same)))
    where
      mapped :
          (consumed : Bool) (k1 k2 : Connection F R M A) (events : List ServerEvent)
          → (if consumed then map_connection_events s.events k1 else done (s.events, k1))
            ≡ done (events, k2)
          → name k2 ≡ name k1
      mapped true k1 k2 events h = map_connection_events-name s.events k1 h
      mapped false k1 k2 events h = sym (ap (λ x. name x.1) (done-injective h))

  pub receive_connection_packet-IsTabled :
      (h : Host F R M S A) (clocks : ℕ → Clock) (random id : ℕ) (addr : A) (packet : List ℕ)
      (s : Server F R M S A) {r : Server F R M S A × ℕ}
      → IsTabled s
      → receive_connection_packet h clocks random id addr packet s ≡ done r
      → IsTabled r.0
  unfolding receive_connection_packet
  receive_connection_packet-IsTabled h clocks random id addr packet s {r} inv run =
      by_case (lookup id s.connections) refl run
    where
      by_case :
          (found : Option (Connection F R M A))
          → lookup id s.connections ≡ found
          → ((elim found [
            | some k ↦ receive_known h (clocks 1) id addr packet k s
            | none ↦ receive_new h clocks random id addr packet s
          ])
              >>= (λ s'. done (s', length packet)))
            ≡ done r
          → IsTabled r.0
      by_case (some k) at run' =
          let (s', run1, last) = returns (receive_known h (clocks 1) id addr packet k s) run' in
          subst IsTabled (ap (λ x. x.0) (done-injective last))
            (receive_known-IsTabled h (clocks 1) id addr packet k s inv at run1)
      by_case none at run' =
          let (s', run1, last) = returns (receive_new h clocks random id addr packet s) run' in
          subst IsTabled (ap (λ x. x.0) (done-injective last))
            (receive_new-IsTabled h clocks random id addr packet s inv run1)
