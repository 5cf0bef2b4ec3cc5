-- ===== src/Server/Lookups.antt =====
-- src/server.rs: what a server whose tables belong together looks up and takes out of them.
use cobalt_rs.Common.{
  ℕ, suc, ◌≡◌, ◌≢◌, refl, ap, subst, ◌∙◌, List, [], ◌∷◌, ◌++◌, Option, none, some, Bool, true,
  false, not, ◌&&◌, if◌then◌else◌, ◌==◌, arith, Outcome, done, returns, done-injective, ◌>>=◌,
  contains, All, unwrap, length,
}
use mathlib.Core.Option
use cobalt_rs.Traits.{Clock}
use cobalt_rs.Connection as Peer
use cobalt_rs.Connection.{Connection}
use cobalt_rs.Connection.Receive.{receive_packet}
use cobalt_rs.Connection.Send.{send_packet}
use cobalt_rs.Stats
use cobalt_rs.Client.{Host, connection_of}
use cobalt_rs.Server.{Server, ServerEvent, Table, lookup, insert, remove, map_connection_events}
use cobalt_rs.Server.Receive.{receive_connection_packet, receive_known, receive_new}
use cobalt_rs.Server.Send.{send_all, drop_connections, close_lost}
use cobalt_rs.Server.Tables.{
  lookup-insert, lookup-remove, lookup-All, remove_all, lookup-remove_all,
}
use cobalt_rs.Server.Sending.{drop_connections_lem}
use cobalt_rs.Server.Invariant.{IsTabled}

module _ {F R M S A : Type 0} where
  -- In a server whose tables belong together the dropped connections are taken out of both tables
  -- without a failing `unwrap`: after it an id is found where it was found before and was not to be
  -- dropped, and none is to be dropped any more.
  pub drop_connections-lookup :
      (s : Server F R M S A)
      → IsTabled s
      → (s' : Server F R M S A) × (drop_connections s.dropped s ≡ done s')
        × (s'.dropped ≡ [])
        × ((j : ℕ)
            → (lookup j s'.connections
                ≡ (if contains j s.dropped then none else lookup j s.connections))
              × (lookup j s'.addresses
                  ≡ (if contains j s.dropped then none else lookup j s.addresses)))
  drop_connections-lookup s inv = (
    record s {
      connections = remove_all s.dropped s.connections;
      addresses = remove_all s.dropped s.addresses;
      dropped = [];
    },
    drop_connections_lem s.dropped s inv.all_dropped,
    refl,
    λ j. (lookup-remove_all j s.dropped s.connections, lookup-remove_all j s.dropped s.addresses),
  )

  -- The loop of `send`, to the address that each connection has itself.
  abbrev pub send_each :
      Host F R M S A
      → (ℕ → Clock)
      → Table (Connection F R M A)
      → S
      → List ServerEvent
      → ℕ
      → Outcome (S × Table (Connection F R M A) × List ServerEvent × List ℕ × ℕ)
  send_each h clocks [] socket events bytes = done (socket, [], events, [], bytes)
  send_each h clocks ((id, k) ∷ rest) socket events bytes = do
    (k1, socket1, sent) ← send_packet h.env h.net socket k.peer_address (clocks 0) k
    total ← Stats.checked_add bytes sent
    (events1, k2, gone) ← close_lost id events k1
    (socket2, rest', events2, gone', bytes') ←
        send_each h (λ i. clocks (suc i)) rest socket1 events1 total
    done (socket2, (id, k2) ∷ rest', events2, gone ++ gone', bytes')

  send_all-each :
      (h : Host F R M S A) (clocks : ℕ → Clock) (addresses : Table A)
      (t : Table (Connection F R M A)) (socket : S) (events : List ServerEvent) (bytes : ℕ)
      → All (λ x. lookup x.0 addresses ≡ some x.1.peer_address) t
      → send_all h clocks addresses t socket events bytes ≡ send_each h clocks t socket events bytes
  unfolding send_all
  send_all-each h clocks addresses [] socket events bytes placed = refl
  send_all-each h clocks addresses ((id, k) ∷ t) socket events bytes placed =
      rw (placed.0, send_all)
        (ap
          (λ (next : S
              → List ServerEvent
              → ℕ
              → Outcome (S × Table (Connection F R M A) × List ServerEvent × List ℕ × ℕ)).
            send_packet h.env h.net socket k.peer_address (clocks 0) k >>= (λ x.
              Stats.checked_add bytes x.2 >>= (λ total. close_lost id events x.0 >>= (λ y.
                next x.1 y.0 total >>= (λ z. done (z.0, (id, y.1) ∷ z.1, z.2, y.2 ++ z.3, z.4))))))
          (λ i socket1 events1 total.
            send_all-each h (λ n. clocks (suc n)) addresses t socket1 events1 total placed.1 i))

  -- In a server whose tables belong together, sending by the table of addresses is sending each
  -- connection's packet to the address that the connection has itself: no address is missing, and
  -- none is out of date.
  pub send_all-peer_address :
      (h : Host F R M S A) (clocks : ℕ → Clock) (s : Server F R M S A) (socket : S)
      (events : List ServerEvent) (bytes : ℕ)
      → IsTabled s
      → send_all h clocks s.addresses s.connections socket events bytes
        ≡ send_each h clocks s.connections socket events bytes
  send_all-peer_address h clocks s socket events bytes inv =
      send_all-each h clocks s.addresses s.connections socket events bytes (
        lookup-All (λ j k. lookup j s.addresses ≡ some k.peer_address) s.connections inv.unique
          (λ j k at. inv.same_places j ∙ ap (Option.map (λ k. k.peer_address)) at))

  -- A packet with one id leaves what the tables have for the other ids as it was.
  pub receive_connection_packet-others :
      (h : Host F R M S A) (clocks : ℕ → Clock) (random id : ℕ) (addr : A) (packet : List ℕ)
      (s : Server F R M S A) {r : Server F R M S A × ℕ} (j : ℕ)
      → j ≢ id
      → receive_connection_packet h clocks random id addr packet s ≡ done r
      → (lookup j r.0.connections ≡ lookup j s.connections)
        × (lookup j r.0.addresses ≡ lookup j s.addresses)
        × (r.0.dropped ≡ s.dropped)
  unfolding receive_connection_packet receive_known receive_new
  receive_connection_packet-others h clocks random id addr packet s {r} j other run =
      by_case (lookup id s.connections) run
    where
      Untouched : Server F R M S A → Type 0
      Untouched s' =
          (lookup j s'.connections ≡ lookup j s.connections)
          × (lookup j s'.addresses ≡ lookup j s.addresses)
          × (s'.dropped ≡ s.dropped)

      miss : (id == j) ≡ false
      miss = ground arith

      skip : {V : Type 0} (v : V) (t : Table V) → lookup j (insert id v t) ≡ lookup j t
      skip v t = lookup-insert j id v t ∙ rw miss refl

      moving :
          (moved : Bool)
          → lookup j (if moved then insert id addr (remove id s.addresses) else s.addresses)
            ≡ lookup j s.addresses
      moving true =
          skip addr (remove id s.addresses) ∙ lookup-remove j id s.addresses ∙ rw miss refl
      moving false = refl

      by_case :
          (found : Option (Connection F R M A))
          → ((elim found [
            | some k ↦ receive_known h (clocks 1) id addr packet k s
            | none ↦ receive_new h clocks random id addr packet s
          ])
              >>= (λ s'. done (s', length packet)))
            ≡ done r
          → Untouched r.0
      by_case (some k) run' =
          let (s', run0, last) = returns (receive_known h (clocks 1) id addr packet k s) run' in
          let ((k1, consumed), _, run2) = returns (receive_packet h.env packet (clocks 1) k) run0 in
          let moved = consumed && not (h.same_addr addr k1.peer_address) in
          let ((events, k2), _, last1) =
            returns
              (map_connection_events s.events (if moved then Peer.set_peer_addr addr k1 else k1))
              run2 in
          subst Untouched (done-injective last1 ∙ ap (λ x. x.0) (done-injective last))
            (skip k2 s.connections, moving moved, refl)
      by_case none run' =
          let (s', run0, last) = returns (receive_new h clocks random id addr packet s) run' in
          let (local_addr, _, run1) = returns (unwrap s.local_address) run0 in
          let fresh : Connection F R M A =
            Peer.set_id id (connection_of h s.config random local_addr addr (clocks 0)) in
          let ((k1, consumed), _, run3) =
            returns (receive_packet h.env packet (clocks 1) fresh) run1 in
          let ((events, k2), _, last1) =
            returns (if consumed then map_connection_events s.events k1 else done (s.events, k1))
              run3 in
          subst Untouched (done-injective last1 ∙ ap (λ x. x.0) (done-injective last))
            (skip k2 s.connections, skip addr s.addresses, refl)
