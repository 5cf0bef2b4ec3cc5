-- ===== src/Client/Phases.antt =====
-- src/client.rs: a client with a socket, a connection and both addresses, or with none of these.
use cobalt_rs.Common.{
  ℕ, ◌≡◌, refl, sym, ap, subst, ◌⊎◌, inl, inr, List, [], ◌∷◌, Option, none, some, false,
  Option-cases, done, returns, done-injective,
}
use cobalt_rs.Config.{Config}
use cobalt_rs.Traits.{Clock}
use cobalt_rs.Connection.{Connection}
use cobalt_rs.Client.{
  Client, Host, Error, Result, set_config, connect, reset, disconnect, connection_of, connect_from,
}
use cobalt_rs.Ticker

module _ {F R M S A : Type 0} where
  pub record Open (c : Client F R M S A) : Type 0 where
    pub the_socket : S
    pub the_link : Connection F R M A
    pub the_peer : A
    pub the_local : A
    pub has_socket : c.socket ≡ some the_socket
    pub has_link : c.link ≡ some the_link
    pub has_peer : c.peer_address ≡ some the_peer
    pub has_local : c.local_address ≡ some the_local

  pub record Shut (c : Client F R M S A) : Type 0 where
    pub no_socket : c.socket ≡ none
    pub no_link : c.link ≡ none
    pub no_peer : c.peer_address ≡ none
    pub no_local : c.local_address ≡ none
    pub no_events : c.events ≡ []
    pub no_receive : c.should_receive ≡ false

  pub set_config-Phase :
      (config : Config F) (c : Client F R M S A) {c' : Client F R M S A}
      → Open c ⊎ Shut c
      → set_config config c ≡ done c'
      → Open c' ⊎ Shut c'
  unfolding set_config
  set_config-Phase config c (inl o) run =
      let (ticker, run1, last) = returns (Ticker.set_config config c.ticker) run in
      inl (
        subst Open (done-injective last) (record {
          the_socket = o.the_socket;
          the_link = cobalt_rs.Connection.set_config config o.the_link;
          the_peer = o.the_peer;
          the_local = o.the_local;
          has_socket = o.has_socket;
          has_link = rw o.has_link refl;
          has_peer = o.has_peer;
          has_local = o.has_local;
        }))
  set_config-Phase config c (inr s) run =
      let (ticker, run1, last) = returns (Ticker.set_config config c.ticker) run in
      inr (
        subst Shut (done-injective last) (record {
          no_socket = s.no_socket;
          no_link = rw s.no_link refl;
          no_peer = s.no_peer;
          no_local = s.no_local;
          no_events = s.no_events;
          no_receive = s.no_receive;
        }))

  pub reset-Phase :
      (h : Host F R M S A) (clock : Clock) (now : ℕ) (c : Client F R M S A) {c' : Client F R M S A}
      {r : Result Error Unit}
      → Open c ⊎ Shut c
      → reset h clock now c ≡ done (c', r)
      → Open c' ⊎ Shut c'
  unfolding reset
  reset-Phase h clock now c (inl o) run = inl (
      subst Open (ap (λ x. x.0) (done-injective (rw (o.has_socket, o.has_link, reset) at run)))
        (record {
          the_socket = o.the_socket;
          the_link = cobalt_rs.Connection.reset h.env clock o.the_link;
          the_peer = o.the_peer;
          the_local = o.the_local;
          has_socket = o.has_socket;
          has_link = refl;
          has_peer = o.has_peer;
          has_local = o.has_local;
        }))
  reset-Phase h clock now c (inr s) run =
      inr (subst Shut (ap (λ x. x.0) (done-injective (rw (s.no_socket, reset) at run))) s)

  reset-events :
      (h : Host F R M S A) (clock : Clock) (now : ℕ) (c : Client F R M S A)
      {x : Client F R M S A × Result Error Unit}
      → Open c
      → reset h clock now c ≡ done x
      → x.0.events ≡ []
  unfolding reset
  reset-events h clock now c o run =
      sym (ap (λ x. x.0.events) (done-injective (rw (o.has_socket, o.has_link, reset) at run)))

  pub disconnect-Shut :
      (h : Host F R M S A) (clock : Clock) (now : ℕ) (c : Client F R M S A) {c' : Client F R M S A}
      {r : Result Error Unit}
      → Open c ⊎ Shut c
      → disconnect h clock now c ≡ done (c', r)
      → Shut c'
  unfolding disconnect
  disconnect-Shut h clock now c (inl o) run =
      let (x, run1, last) = returns (reset h clock now c) (rw (o.has_socket, disconnect) at run) in
      subst Shut (ap (λ x. x.0) (done-injective last)) (record {
        no_socket = refl;
        no_link = refl;
        no_peer = refl;
        no_local = refl;
        no_events = reset-events h clock now c o run1;
        no_receive = refl;
      })
  disconnect-Shut h clock now c (inr s) run =
      subst Shut (ap (λ x. x.0) (done-injective (rw (s.no_socket, disconnect) at run))) s

  connect_from-Phase :
      (h : Host F R M S A) (resolved : Option (List A)) (random : ℕ) (clock : Clock) (socket : S)
      (c : Client F R M S A) {c' : Client F R M S A} {r : Result Error Unit}
      → Shut c
      → connect_from h resolved random clock socket c ≡ done (c', r)
      → Open c' ⊎ Shut c'
  unfolding connect_from
  connect_from-Phase h none random clock socket c s run =
      inr (subst Shut (ap (λ x. x.0) (done-injective run)) s)
  connect_from-Phase h (some []) random clock socket c s run = cc
  connect_from-Phase h (some (peer_addr ∷ rest)) random clock socket c s run =
      elim (Option-cases (h.net.local_addr socket)) [
        | inl n ↦ inr (subst Shut (ap (λ x. x.0) (done-injective (rw (n, connect_from) at run))) s)
        | inr (local_addr, n) ↦ inl (
            subst Open (ap (λ x. x.0) (done-injective (rw (n, connect_from) at run))) (record {
              the_socket = socket;
              the_link = connection_of h c.config random local_addr peer_addr clock;
              the_peer = peer_addr;
              the_local = local_addr;
              has_socket = refl;
              has_link = refl;
              has_peer = refl;
              has_local = refl;
            }))
      ]

  pub connect-Phase :
      (h : Host F R M S A) (resolved : Option (List A)) (random : ℕ) (clock : Clock)
      (c : Client F R M S A) {c' : Client F R M S A} {r : Result Error Unit}
      → Open c ⊎ Shut c
      → connect h resolved random clock c ≡ done (c', r)
      → Open c' ⊎ Shut c'
  unfolding connect
  connect-Phase h resolved random clock c (inl o) run =
      inl (subst Open (ap (λ x. x.0) (done-injective (rw (o.has_socket, connect) at run))) o)
  connect-Phase h resolved random clock c (inr s) run =
      elim (Option-cases (h.net.new_socket h.any_addr c.config.packet_max_size)) [
        | inl n ↦
            inr
              (subst Shut (ap (λ x. x.0) (done-injective (rw (s.no_socket, n, connect) at run))) s)
        | inr (socket, n) ↦
            connect_from-Phase h resolved random clock socket c s
              (rw (s.no_socket, n, connect) at run)
      ]
