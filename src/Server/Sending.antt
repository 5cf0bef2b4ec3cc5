-- ===== src/Server/Sending.antt =====
-- src/server.rs: the loops of `send`, over the dropped ids and over the connections.
use cobalt_rs.Common.{
  ℕ, suc, ◌≡◌, refl, sym, ap, ap₂, subst, ◌∙◌, List, [], ◌∷◌, ◌++◌, none, Bool, true, false, ◌==◌,
  if◌then◌else◌, Bool-cases, inl, inr, arith, done, returns, done-injective, unwrap, ◌>>=◌,
  contains,
}
use cobalt_rs.Traits.{Clock}
use cobalt_rs.Connection as Peer
use cobalt_rs.Connection.{Connection, ConnectionEvent}
use cobalt_rs.Connection.Send.{send_packet}
use cobalt_rs.Connection.Names.{name, send_packet-name}
use cobalt_rs.Stats
use cobalt_rs.Client.{Host}
use cobalt_rs.Server.{Server, ServerEvent, Table, lookup, remove, map_connection_events, map_events}
use cobalt_rs.Server.Send.{close_lost, send_all, drop_connections}
use cobalt_rs.Server.Tables.{
  UniqueKeys, AllPresent, AllPresent-mono, map_values, remove_all, remove-AllPresent,
}

module _ {F R M A : Type 0} where
  pub map_connection_events-name :
      (es : List ServerEvent) (k : Connection F R M A) {r : List ServerEvent × Connection F R M A}
      → map_connection_events es k ≡ done r
      → name r.1 ≡ name k
  unfolding map_connection_events Peer.events
  map_connection_events-name es k run =
      let (events, _, last) = returns (map_events k.random_id (Peer.events k).0 es) run in
      sym (ap (λ x. name x.1) (done-injective last))

module _ {F R M S A : Type 0} where
  -- If the dropped ids are different and have connections, then all of them are taken out of both
  -- tables and nothing is unwrapped in vain.
  pub drop_connections_lem :
      (ids : List ℕ) (s : Server F R M S A)
      → AllPresent ids s.connections
      → drop_connections ids s
        ≡ done (record s {
          connections = remove_all ids s.connections;
          addresses = remove_all ids s.addresses;
          dropped = [];
        })
  unfolding drop_connections
  drop_connections_lem [] s p = refl
  drop_connections_lem (id ∷ ids) s p =
      rw (p.0.1, drop_connections)
        (drop_connections_lem ids
          (record s { connections = remove id s.connections; addresses = remove id s.addresses })
          (remove-AllPresent id ids s.connections p.1 p.2))

module _ {F R M A : Type 0} where
  -- The ids of the connections that are not open.
  abbrev pub closed_ids : Table (Connection F R M A) → List ℕ
  closed_ids [] = []
  closed_ids ((id, k) ∷ t) = if Peer.is_open k then closed_ids t else id ∷ closed_ids t

  closed_ids-absent :
      (j : ℕ) (t : Table (Connection F R M A))
      → lookup j t ≡ none
      → contains j (closed_ids t) ≡ false
  closed_ids-absent j [] n = refl
  closed_ids-absent j ((id, k) ∷ t) n =
      let rest = closed_ids-absent j t (ground arith) in
      elim (Bool-cases (Peer.is_open k)) [
        | inl open_k ↦ rw open_k rest
        | inr shut ↦ rw shut (ground arith)
      ]

  pub closed_ids-AllPresent :
      (t : Table (Connection F R M A)) → UniqueKeys t → AllPresent (closed_ids t) t
  closed_ids-AllPresent [] u = tt
  closed_ids-AllPresent ((id, k) ∷ t) u =
      let rest =
        AllPresent-mono (closed_ids t) t ((id, k) ∷ t)
          (λ j v _ h. elim (Bool-cases (id == j)) [
            | inl same ↦ (k, rw same refl)
            | inr other ↦ (v, rw other h)
          ])
          (closed_ids-AllPresent t u.1) in
      elim (Bool-cases (Peer.is_open k)) [
        | inl open_k ↦ rw open_k rest
        | inr shut ↦ rw shut ((k, ground arith), closed_ids-absent id t u.0, rest)
      ]

  -- What is asked of a connection that was sent to: its name is kept, and its id is among those that
  -- are dropped if it is not open.
  close_lost_lem :
      (id : ℕ) (es : List ServerEvent) (k : Connection F R M A)
      {r : List ServerEvent × Connection F R M A × List ℕ}
      → close_lost id es k ≡ done r
      → (name r.1 ≡ name k) × (r.2 ≡ (if Peer.is_open r.1 then [] else id ∷ []))
  unfolding close_lost map_connection_events Peer.events Peer.is_open
  close_lost_lem id es k {r} run = by_case (Peer.is_open k) refl run
    where
      by_case :
          (b : Bool)
          → Peer.is_open k ≡ b
          → (if b
              then done (es, k, [])
              else map_connection_events es k >>= (λ r. done (r.0, r.1, id ∷ [])))
            ≡ done r
          → (name r.1 ≡ name k) × (r.2 ≡ (if Peer.is_open r.1 then [] else id ∷ []))
      by_case true is h =
          subst (λ r. (name r.1 ≡ name k) × (r.2 ≡ (if Peer.is_open r.1 then [] else id ∷ [])))
            (done-injective h) (refl, rw is refl)
      by_case false is h =
          let (m, run1, last) = returns (map_connection_events es k) h in
          let (events, _, last1) = returns (map_events k.random_id (Peer.events k).0 es) run1 in
          subst (λ r. (name r.1 ≡ name k) × (r.2 ≡ (if Peer.is_open r.1 then [] else id ∷ [])))
            (ap (λ m. (m.0, m.1, id ∷ [])) (done-injective last1) ∙ done-injective last)
            (refl, rw is refl)

module _ {F R M S A : Type 0} where
  pub send_all_lem :
      (h : Host F R M S A) (clocks : ℕ → Clock) (addresses : Table A)
      (t : Table (Connection F R M A)) (socket : S) (es : List ServerEvent) (bytes : ℕ)
      {r : S × Table (Connection F R M A) × List ServerEvent × List ℕ × ℕ}
      → send_all h clocks addresses t socket es bytes ≡ done r
      → (map_values name r.1 ≡ map_values name t) × (r.3 ≡ closed_ids r.1)
  unfolding send_all
  send_all_lem h clocks addresses [] socket es bytes run = (
    sym (ap (λ r. map_values name r.1) (done-injective run)),
    sym (ap (λ r. r.3) (done-injective run)) ∙ ap (λ r. closed_ids r.1) (done-injective run),
  )
  send_all_lem h clocks addresses ((id, k) ∷ t) socket es bytes {r} run =
      let (addr, at, run1) = returns (unwrap (lookup id addresses)) run in
      let ((k1, socket1, sent), run2, run3) =
        returns (send_packet h.env h.net socket addr (clocks 0) k) run1 in
      let (total, _, run4) = returns (Stats.checked_add bytes sent) run3 in
      let ((es1, k2, gone), run5, run6) = returns (close_lost id es k1) run4 in
      let ((socket2, t', es2, gone', bytes'), run7, last) =
        returns (send_all h (λ i. clocks (suc i)) addresses t socket1 es1 total) run6 in
      let (same, closed) = close_lost_lem id es k1 run5 in
      let (sames, closeds) =
        send_all_lem h (λ i. clocks (suc i)) addresses t socket1 es1 total run7 in
      subst (λ r. (map_values name r.1 ≡ map_values name ((id, k) ∷ t)) × (r.3 ≡ closed_ids r.1))
        (done-injective last)
        (
          ap₂ (λ n ns. (id, n) ∷ ns)
              (same ∙ send_packet-name h.env h.net socket addr (clocks 0) k run2) sames,
          ap₂ (λ g gs. g ++ gs) closed closeds ∙ joined (Peer.is_open k2) id (closed_ids t'),
        )
    where
      joined :
          (b : Bool) (id : ℕ) (ids : List ℕ)
          → (if b then [] else id ∷ []) ++ ids ≡ (if b then ids else id ∷ ids)
      joined true id ids = refl
      joined false id ids = refl
