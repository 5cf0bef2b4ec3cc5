-- ===== src/Server/Invariant.antt =====
-- src/server.rs: the state of the server whose tables belong together.
pub mod Receive
pub mod Accept
pub mod Setup
pub mod Send
use cobalt_rs.Common.{
  ℕ, ◌≡◌, refl, sym, ap, subst, ◌∙◌, List, [], ◌∷◌, Option, none, some, Bool, true, false, not,
  ◌&&◌, ◌==◌, if◌then◌else◌, ==_iff, Bool-cases, Option-cases, inl, inr, arith, Outcome, done,
  returns, done-injective, unwrap, ◌>>=◌, length,
}
use mathlib.Core.Option
use mathlib.Core.Option.{some-injective}
use cobalt_rs.Traits.{Clock}
use cobalt_rs.Connection as Peer
use cobalt_rs.Connection.{Connection}
use cobalt_rs.Connection.Receive.{receive_packet}
use cobalt_rs.Connection.Names.{name, receive_packet-name}
use cobalt_rs.Client.{Host, connection_of}
use cobalt_rs.Server.{
  Server, ServerEvent, Table, lookup, remove, insert, map_connection_events, map_events,
}
use cobalt_rs.Server.Receive.{receive_known, receive_new, receive_connection_packet}
use cobalt_rs.Server.Tables.{
  lookup-insert, lookup-remove, UniqueKeys, insert-UniqueKeys, AllPresent, AllPresent-mono,
  map_values, UniqueKeys-map_values, map_values-UniqueKeys, lookup-map_values,
}

module _ {F R M A : Type 0} where
  -- An id has an address where it has a connection, and it is the address and the id that the
  -- connection has; the ids to be dropped are different and have connections.
  pub record Tabled (connections : Table (Connection F R M A)) (addresses : Table A)
      (dropped : List ℕ) : Type 0 where
    pub unique : UniqueKeys connections
    pub same_places :
        (j : ℕ) → lookup j addresses ≡ Option.map (λ k. k.peer_address) (lookup j connections)
    pub own_ids : (j : ℕ) (k : Connection F R M A) → lookup j connections ≡ some k → k.random_id ≡ j
    pub all_dropped : AllPresent dropped connections

  -- What `Tabled` asks of a connection.
  abbrev pub place : Connection F R M A → A × ℕ
  place k = (k.peer_address, k.random_id)

  place-some :
      (o o' : Option (Connection F R M A)) (k : Connection F R M A)
      → Option.map place o ≡ Option.map place o'
      → o ≡ some k
      → (k' : Connection F R M A) × (o' ≡ some k') × (place k ≡ place k')
  place-some none o' k h at = cc
  place-some (some k1) none k h at = cc
  place-some (some k1) (some k2) k h at =
      (k2, refl, some-injective (place k) (place k2) (ap (Option.map place) (sym at) ∙ h))

  place-address :
      (o o' : Option (Connection F R M A))
      → Option.map place o ≡ Option.map place o'
      → Option.map (λ k. k.peer_address) o ≡ Option.map (λ k. k.peer_address) o'
  place-address none none h = refl
  place-address none (some k) h = cc
  place-address (some k) none h = cc
  place-address (some k) (some k') h = ap (λ p. some p.0) (some-injective (place k) (place k') h)

  -- Connections that keep their places, and new ids to be dropped.
  pub same_places-Tabled :
      (t t' : Table (Connection F R M A)) (addresses : Table A) (dropped dropped' : List ℕ)
      → Tabled t addresses dropped
      → map_values place t' ≡ map_values place t
      → AllPresent dropped' t'
      → Tabled t' addresses dropped'
  same_places-Tabled t t' addresses dropped dropped' inv same present = record {
    unique =
        map_values-UniqueKeys place t'
          (subst UniqueKeys (sym same) (UniqueKeys-map_values place t inv.unique));
    same_places =
        λ j. inv.same_places j ∙ place-address (lookup j t) (lookup j t') (sym (same_at j));
    own_ids = λ j k at.
        let (k', at', e) = place-some (lookup j t') (lookup j t) k (same_at j) at in
        ap (λ p. p.1) e ∙ inv.own_ids j k' at';
    all_dropped = present;
  }
    where
      same_at : (j : ℕ) → Option.map place (lookup j t') ≡ Option.map place (lookup j t)
      same_at j =
          sym (lookup-map_values place j t') ∙ ap (lookup j) same ∙ lookup-map_values place j t

  -- A server without connections.
  pub fresh-Tabled : Tabled [] [] []
  fresh-Tabled = record {
    unique = tt;
    same_places = λ j. refl;
    own_ids = λ j k at. cc;
    all_dropped = tt;
  }

module _ {F R M S A : Type 0} where
  abbrev pub IsTabled : Server F R M S A → Type 0
  IsTabled s = Tabled s.connections s.addresses s.dropped

  pub put-IsTabled :
      (id : ℕ) (k : Connection F R M A) (addresses : Table A) (es : List ServerEvent)
      (s : Server F R M S A)
      → IsTabled s
      → k.random_id ≡ id
      → ((j : ℕ)
          → lookup j addresses ≡ (if id == j then some k.peer_address else lookup j s.addresses))
      → IsTabled
          (record s { connections = insert id k s.connections; addresses = addresses; events = es })
  put-IsTabled id k addresses es s inv own at = record {
    unique = insert-UniqueKeys id k s.connections inv.unique;
    same_places = λ j. elim (Bool-cases (id == j)) [
      | inl same ↦ at j ∙ rw (lookup-insert j id k s.connections, same) refl
      | inr other ↦ at j ∙ rw (lookup-insert j id k s.connections, other) (inv.same_places j)
    ];
    own_ids = λ j k' h. elim (Bool-cases (id == j)) [
      | inl same ↦ ground (arith, lookup-insert j id k s.connections)
      | inr other ↦ inv.own_ids j k' (ground (arith, lookup-insert j id k s.connections))
    ];
    all_dropped =
        AllPresent-mono s.dropped s.connections (insert id k s.connections)
          (λ j v _ h. elim (Bool-cases (id == j)) [
            | inl same ↦ (k, lookup-insert j id k s.connections ∙ rw same refl)
            | inr other ↦ (v, lookup-insert j id k s.connections ∙ rw other h)
          ])
          inv.all_dropped;
  }
