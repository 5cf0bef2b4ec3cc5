-- ===== src/Server/Invariant/Setup.antt =====
-- src/server.rs: the tables under `set_config`, `listen` and `shutdown`.
use cobalt_rs.Common.{
  ℕ, ◌≡◌, ap, subst, ◌∙◌, List, [], ◌∷◌, Option, none, some, true, inl, inr, panic, done, returns,
  done-injective, Option-cases,
}
use mathlib.Core.Option
use cobalt_rs.Config.{Config}
use cobalt_rs.Connection as Peer
use cobalt_rs.Connection.{Connection, id_from_packet}
use cobalt_rs.Ticker
use cobalt_rs.Client.{Host, Error, Result}
use cobalt_rs.Server.{Server, set_config, listen, shutdown}
use cobalt_rs.Server.Tables.{AllPresent-mono, map_values, map_values-after, lookup-map_values}
use cobalt_rs.Server.Invariant.{IsTabled, place, same_places-Tabled, fresh-Tabled}

module _ {F R M S A : Type 0} where
  pub set_config-IsTabled :
      (config : Config F) (s : Server F R M S A) {s' : Server F R M S A}
      → IsTabled s
      → set_config config s ≡ done s'
      → IsTabled s'
  unfolding set_config Peer.set_config
  set_config-IsTabled config s inv run =
      let (ticker, _, last) = returns (Ticker.set_config config s.ticker) run in
      subst IsTabled (done-injective last) (
        same_places-Tabled s.connections (map_values (Peer.set_config config) s.connections)
          s.addresses s.dropped s.dropped inv
          (map_values-after (Peer.set_config config) place s.connections)
          (AllPresent-mono s.dropped s.connections
            (map_values (Peer.set_config config) s.connections)
            (λ j k _ at. (
              Peer.set_config config k,
              lookup-map_values (Peer.set_config config) j s.connections
                  ∙ ap (Option.map (Peer.set_config config)) at,
            ))
            inv.all_dropped))

  pub shutdown-IsTabled :
      (now : ℕ) (s : Server F R M S A) → IsTabled s → IsTabled (shutdown now s).0
  unfolding shutdown
  shutdown-IsTabled now s inv = elim (Option-cases s.socket) [
    | inl n ↦ rw (n, shutdown) inv
    | inr (socket, n) ↦ rw (n, shutdown) fresh-Tabled
  ]

  pub listen-IsTabled :
      (h : Host F R M S A) (resolved : Option (List A)) (s : Server F R M S A)
      {r : Server F R M S A × Result Error Unit}
      → IsTabled s
      → listen h resolved s ≡ done r
      → IsTabled r.0
  unfolding listen
  listen-IsTabled h resolved s {r} inv run = by_case s.socket resolved run
    where
      bound :
          (local_addr : A) (o : Option S)
          → elim o [
            | none ↦ done (s, Result.err Error.socket_error)
            | some socket ↦ done (
              record s {
                socket = some socket;
                local_address = some local_addr;
                should_receive = true;
              },
              Result.ok tt,
            )
          ]
            ≡ done r
          → IsTabled r.0
      bound local_addr none h' = subst (λ x. IsTabled x.0) (done-injective h') inv
      bound local_addr (some socket) h' = subst (λ x. IsTabled x.0) (done-injective h') inv

      by_case :
          (o : Option S) (resolved : Option (List A))
          → elim o [
            | some socket ↦ done (s, Result.err Error.already_exists)
            | none ↦ elim resolved [
              | none ↦ done (s, Result.err Error.socket_error)
              | some [] ↦ panic
              | some (local_addr ∷ rest) ↦
                  elim (h.net.new_socket local_addr s.config.packet_max_size) [
                    | none ↦ done (s, Result.err Error.socket_error)
                    | some socket ↦ done (
                      record s {
                        socket = some socket;
                        local_address = some local_addr;
                        should_receive = true;
                      },
                      Result.ok tt,
                    )
                  ]
            ]
          ]
            ≡ done r
          → IsTabled r.0
      by_case (some socket) resolved h' = subst (λ x. IsTabled x.0) (done-injective h') inv
      by_case none none h' = subst (λ x. IsTabled x.0) (done-injective h') inv
      by_case none (some []) h' = cc
      by_case none (some (local_addr ∷ rest)) h' =
          bound local_addr (h.net.new_socket local_addr s.config.packet_max_size) h'
