-- ===== src/Server/Invariant/Send.antt =====
-- src/server.rs: the tables under `send`.
use cobalt_rs.Common.{
  ℕ, ◌≡◌, refl, sym, ap, subst, ◌∙◌, List, [], Option, none, some, Bool, true, false, if◌then◌else◌,
  arith, done, returns, done-injective, contains,
}
use mathlib.Core.Option
use cobalt_rs.Traits.{Clock}
use cobalt_rs.Connection.{Connection}
use cobalt_rs.Connection.Names.{name}
use cobalt_rs.Stats
use cobalt_rs.Ticker
use cobalt_rs.Client.{Host, Error, Result}
use cobalt_rs.Server.{Server, Table, lookup}
use cobalt_rs.Server.Send.{send, send_all, drop_connections}
use cobalt_rs.Server.Tables.{
  AllPresent, UniqueKeys, map_values, map_values-after, map_values-UniqueKeys,
  UniqueKeys-map_values, remove_all, remove_all-UniqueKeys, lookup-remove_all,
}
use cobalt_rs.Server.Sending.{send_all_lem, drop_connections_lem, closed_ids, closed_ids-AllPresent}
use cobalt_rs.Server.Invariant.{Tabled, IsTabled, same_places-Tabled}

module _ {F R M A : Type 0} where
  pub remove_all-Tabled :
      (ids : List ℕ) (t : Table (Connection F R M A)) (addresses : Table A) (dropped : List ℕ)
      → Tabled t addresses dropped
      → Tabled (remove_all ids t) (remove_all ids addresses) []
  remove_all-Tabled ids t addresses dropped inv = record {
    unique = remove_all-UniqueKeys ids t inv.unique;
    same_places = λ j.
        lookup-remove_all j ids addresses
        ∙ by_case j (contains j ids)
        ∙ ap (Option.map (λ k. k.peer_address)) (sym (lookup-remove_all j ids t));
    own_ids = λ j k at. inv.own_ids j k (ground (arith, lookup-remove_all j ids t));
    all_dropped = tt;
  }
    where
      by_case :
          (j : ℕ) (b : Bool)
          → (if b then none else lookup j addresses)
            ≡ Option.map (λ k. k.peer_address) (if b then none else lookup j t)
      by_case j true = refl
      by_case j false = inv.same_places j

module _ {F R M S A : Type 0} where
  -- What `send` makes of the tables of a server with a socket.
  pub send_tables :
      (auto_tick : Bool) (h : Host F R M S A) (clocks : ℕ → Clock) (now : ℕ) (s : Server F R M S A)
      (socket : S) {r : Server F R M S A × Result Error Unit × ℕ}
      → IsTabled s
      → s.socket ≡ some socket
      → send auto_tick h clocks now s ≡ done r
      → (map_values name r.0.connections ≡ map_values name (remove_all s.dropped s.connections))
        × (r.0.addresses ≡ remove_all s.dropped s.addresses)
        × (r.0.dropped ≡ closed_ids r.0.connections)
  unfolding send
  send_tables auto_tick h clocks now s socket {r} inv bound run =
      let (s1, run1, run2) = returns (drop_connections s.dropped s) (rw (bound, send) at run) in
      let at1 : s1 ≡ _ =
        done-injective (sym run1 ∙ drop_connections_lem s.dropped s inv.all_dropped) in
      let ((socket', t, es, gone, bytes), run3, run4) =
        returns (send_all h clocks s1.addresses s1.connections socket s1.events 0) run2 in
      let (collector, _, run5) = returns (Stats.set_bytes_sent bytes s1.stats_collector) run4 in
      let ((ticker, sleep), _, last) =
        returns (if auto_tick then Ticker.end_tick h.env.ops now s1.ticker else done (s1.ticker, 0))
          run5 in
      let (same, closed) =
        send_all_lem h clocks s1.addresses s1.connections socket s1.events 0 run3 in
      subst
        (λ r.
          (map_values name r.0.connections ≡ map_values name (remove_all s.dropped s.connections))
          × (r.0.addresses ≡ remove_all s.dropped s.addresses)
          × (r.0.dropped ≡ closed_ids r.0.connections))
        (done-injective last)
        (same ∙ ap (λ s. map_values name s.connections) at1, ap (λ s. s.addresses) at1, closed)

  pub send-IsTabled :
      (auto_tick : Bool) (h : Host F R M S A) (clocks : ℕ → Clock) (now : ℕ) (s : Server F R M S A)
      {r : Server F R M S A × Result Error Unit × ℕ}
      → IsTabled s
      → send auto_tick h clocks now s ≡ done r
      → IsTabled r.0
  unfolding send
  send-IsTabled auto_tick h clocks now s {r} inv run = by_case s.socket refl
    where
      by_case : (o : Option S) → s.socket ≡ o → IsTabled r.0
      by_case none shut = subst (λ x. IsTabled x.0) (done-injective (rw (shut, send) at run)) inv
      by_case (some socket) bound =
          let (same, places, gone) = send_tables auto_tick h clocks now s socket inv bound run in
          let removed = remove_all-Tabled s.dropped s.connections s.addresses s.dropped inv in
          let unique : UniqueKeys r.0.connections = map_values-UniqueKeys name r.0.connections (
            subst UniqueKeys (sym same)
              (UniqueKeys-map_values name (remove_all s.dropped s.connections) removed.unique)) in
          same_places-Tabled (remove_all s.dropped s.connections) r.0.connections r.0.addresses []
            r.0.dropped
            (subst (λ a. Tabled (remove_all s.dropped s.connections) a []) (sym places) removed)
            (sym (map_values-after name (λ n. (n.2, n.3)) r.0.connections)
              ∙ ap (map_values (λ n. (n.2, n.3))) same
              ∙ map_values-after name (λ n. (n.2, n.3)) (remove_all s.dropped s.connections))
            (subst (λ ids. AllPresent ids r.0.connections) (sym gone)
              (closed_ids-AllPresent r.0.connections unique))
