-- ===== src/Server/Histories.antt =====
-- src/server.rs: histories of calls of the server.
use cobalt_rs.Common.{
  ℕ, ◌≡◌, refl, sym, ap, subst, ◌∙◌, List, Option, none, some, Bool, Bool-cases, inl, inr, ◌==◌,
  ==_iff, done, returns, done-injective,
}
use cobalt_rs.Config.{Config}
use cobalt_rs.Traits.{Clock}
use cobalt_rs.Connection.{Connection}
use cobalt_rs.Connection.Uses.{Use, Use-place}
use cobalt_rs.Server.Access.{socket_mut}
use cobalt_rs.Ticker
use cobalt_rs.Client.{Host, Error, TryRecvError, Result}
use cobalt_rs.Server.{
  Server, ServerEvent, lookup, insert, new, set_config, listen, shutdown, connection_mut,
}
use cobalt_rs.Server.Receive.{accept_receive}
use cobalt_rs.Server.Send.{send}
use cobalt_rs.Server.Invariant.{IsTabled, put-IsTabled, fresh-Tabled}
use cobalt_rs.Server.Invariant.Send.{send-IsTabled}
use cobalt_rs.Server.Invariant.Accept.{accept_receive-IsTabled}
use cobalt_rs.Server.Invariant.Setup.{set_config-IsTabled, shutdown-IsTabled, listen-IsTabled}

module _ {F R M S A : Type 0} where
  -- A call of the server: its state before and after. The caller may make any call of a connection
  -- that `connection` gives but `set_id` and `set_peer_addr`, and change the socket in any way.
  pub data Call (h : Host F R M S A) : Server F R M S A → Server F R M S A → Type 0 where
    set_configs :
        {s s' : Server F R M S A} (config : Config F) → set_config config s ≡ done s' → Call h s s'
    listens :
        {s s' : Server F R M S A} {r : Result Error Unit} (resolved : Option (List A))
        → listen h resolved s ≡ done (s', r)
        → Call h s s'
    uses :
        {s : Server F R M S A} (id : ℕ) (k k' : Connection F R M A)
        → connection_mut id s ≡ Result.ok k
        → Use h.env h.net k k'
        → Call h s (record s { connections = insert id k' s.connections })
    uses_socket :
        {s : Server F R M S A} (socket socket' : S)
        → socket_mut s ≡ Result.ok socket
        → Call h s (record s { socket = some socket' })
    accepts :
        {s s' : Server F R M S A} {r : Result TryRecvError ServerEvent} (fuel now : ℕ)
        (clocks : ℕ → ℕ → Clock) (random : ℕ → ℕ)
        → accept_receive fuel h now clocks random s ≡ done (s', r)
        → Call h s s'
    sends :
        {s s' : Server F R M S A} {r : Result Error Unit} {sleep : ℕ} (auto_tick : Bool)
        (clocks : ℕ → Clock) (now : ℕ)
        → send auto_tick h clocks now s ≡ done (s', r, sleep)
        → Call h s s'
    shutdowns : {s : Server F R M S A} (now : ℕ) → Call h s (shutdown now s).0

  -- The servers that a new one becomes by calls.
  pub data Reach (h : Host F R M S A) : Server F R M S A → Type 0 where
    starts :
        {s : Server F R M S A} (config : Config F) (now : ℕ) → new config now ≡ done s → Reach h s
    continues : {s s' : Server F R M S A} → Reach h s → Call h s s' → Reach h s'

  connection_mut-found :
      (id : ℕ) (s : Server F R M S A) (k : Connection F R M A)
      → connection_mut id s ≡ Result.ok k
      → lookup id s.connections ≡ some k
  unfolding connection_mut
  connection_mut-found id s k h = by_case s.socket (lookup id s.connections) h
    where
      by_case :
          (o : Option S) (found : Option (Connection F R M A))
          → elim o as (λ _. Result Error (Connection F R M A)) [
            | none ↦ Result.err Error.not_connected
            | some socket ↦ elim found as (λ _. Result Error (Connection F R M A)) [
              | some k ↦ Result.ok k
              | none ↦ Result.err Error.not_found
            ]
          ]
            ≡ Result.ok k
          → found ≡ some k
      by_case none found h' = cc
      by_case (some socket) none h' = cc
      by_case (some socket) (some k') h' = cc

  Call-IsTabled :
      (h : Host F R M S A) {s s' : Server F R M S A} → Call h s s' → IsTabled s → IsTabled s'
  Call-IsTabled h {s} (set_configs config run) inv = set_config-IsTabled config s inv run
  Call-IsTabled h {s} (listens resolved run) inv = listen-IsTabled h resolved s inv run
  Call-IsTabled h {s} (uses id k k' found use_of) inv =
      let same = Use-place h.env h.net use_of in
      let at = connection_mut-found id s k found in
      put-IsTabled id k' s.addresses s.events s inv (same.1 ∙ inv.own_ids id k at) (λ j.
        elim (Bool-cases (id == j)) [
          | inl hit ↦ rw hit (
              sym (ap (λ i. lookup i s.addresses) ((==_iff id j).0 hit))
              ∙ inv.same_places id
              ∙ rw at (ap some (sym same.0)))
          | inr miss ↦ rw miss refl
        ])
  Call-IsTabled h {s} (uses_socket socket socket' found) inv = inv
  Call-IsTabled h {s} (accepts fuel now clocks random run) inv =
      accept_receive-IsTabled fuel h now clocks random s inv run
  Call-IsTabled h {s} (sends auto_tick clocks now run) inv =
      send-IsTabled auto_tick h clocks now s inv run
  Call-IsTabled h {s} (shutdowns now) inv = shutdown-IsTabled now s inv

  -- After any history of calls but `connections`, and of calls of single connections but `set_id` and
  -- `set_peer_addr`, the server's tables have the same ids, each once, with the address
  -- and the id of its connection, and the ids to be dropped are different and in the tables.
  pub Reach-IsTabled : (h : Host F R M S A) {s : Server F R M S A} → Reach h s → IsTabled s
  unfolding new
  Reach-IsTabled h (starts config now run) =
      let (ticker, _, last) = returns (Ticker.new config now) run in
      subst IsTabled (done-injective last) fresh-Tabled
  Reach-IsTabled h (continues reach call) = Call-IsTabled h call (Reach-IsTabled h reach)
