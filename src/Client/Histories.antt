-- ===== src/Client/Histories.antt =====
-- Histories of calls of the client.
use cobalt_rs.Common.{
  ℕ, ◌≡◌, refl, ap, subst, ◌⊎◌, inl, inr, List, Option, Bool, true, false, unwrap, suc, ◌%◌, ◌^◌,
  done, returns, done-injective, if◌then◌else◌, List-cases, some,
}
use cobalt_rs.Config.{Config}
use cobalt_rs.Traits.{Clock}
use cobalt_rs.Connection.{Connection}
use cobalt_rs.Client.{
  Client, Host, Error, Result, ClientEvent, TryRecvError, new, set_config, connect, receive_all,
  pop_event, receive, send, reset, disconnect, receive_loop,
}
use cobalt_rs.Client.Access.{connection_mut, socket_mut}
use cobalt_rs.Ticker
use cobalt_rs.Connection.Send
use cobalt_rs.Stats
use cobalt_rs.Client.Phases.{
  Open, Shut, set_config-Phase, reset-Phase, disconnect-Shut, connect-Phase,
}

module _ {F R M S A : Type 0} where
  -- A call of the client: its state before and after. The caller may change the connection and the
  -- socket that it has access to.
  pub data Call (h : Host F R M S A) : Client F R M S A → Client F R M S A → Type 0 where
    set_configs :
        {c c' : Client F R M S A} (config : Config F) → set_config config c ≡ done c' → Call h c c'
    connects :
        {c c' : Client F R M S A} {r : Result Error Unit} (resolved : Option (List A)) (random : ℕ)
        (clock : Clock)
        → connect h resolved random clock c ≡ done (c', r)
        → Call h c c'
    uses_connection :
        {c : Client F R M S A} (k k' : Connection F R M A)
        → connection_mut c ≡ Result.ok k
        → Call h c (record c { link = some k' })
    uses_socket :
        {c : Client F R M S A} (socket socket' : S)
        → socket_mut c ≡ Result.ok socket
        → Call h c (record c { socket = some socket' })
    receives :
        {c c' : Client F R M S A} {r : Result TryRecvError ClientEvent} (fuel : ℕ) (clock : Clock)
        → receive fuel h clock c ≡ done (c', r)
        → Call h c c'
    sends :
        {c c' : Client F R M S A} {r : Result Error Unit} {sleep : ℕ} (auto_tick : Bool)
        (clock : Clock) (now : ℕ)
        → send auto_tick h clock now c ≡ done (c', r, sleep)
        → Call h c c'
    resets :
        {c c' : Client F R M S A} {r : Result Error Unit} (clock : Clock) (now : ℕ)
        → reset h clock now c ≡ done (c', r)
        → Call h c c'
    disconnects :
        {c c' : Client F R M S A} {r : Result Error Unit} (clock : Clock) (now : ℕ)
        → disconnect h clock now c ≡ done (c', r)
        → Call h c c'

  pop_event-Open : (c : Client F R M S A) → Open c → Open (pop_event c).0
  unfolding pop_event
  pop_event-Open c o = elim (List-cases c.events) [
    | inl n ↦ rw (n, pop_event) o
    | inr (e, es, n) ↦
        rw (n, pop_event)
          (record {
            the_socket = o.the_socket;
            the_link = o.the_link;
            the_peer = o.the_peer;
            the_local = o.the_local;
            has_socket = o.has_socket;
            has_link = o.has_link;
            has_peer = o.has_peer;
            has_local = o.has_local;
          })
  ]

  receive_all-Open :
      (fuel : ℕ) (h : Host F R M S A) (clock : Clock) (socket : S) (c : Client F R M S A)
      {c' : Client F R M S A}
      → Open c
      → receive_all fuel h clock socket c ≡ done c'
      → Open c'
  unfolding receive_all
  receive_all-Open fuel h clock socket c o run =
      let (peer, at, run1) = returns (unwrap c.peer_address) run in
      let (k, at_k, run2) = returns (unwrap c.link) run1 in
      let ((socket', k', bytes), at_l, run3) =
        returns (receive_loop fuel h (λ i. clock (suc i)) peer socket k 0) run2 in
      let (collector, at_s, run4) =
        returns (Stats.set_bytes_received (bytes % 2 ^ 32) c.stats_collector) run3 in
      subst Open (done-injective run4) (record {
        the_socket = socket';
        the_link = (cobalt_rs.Connection.events k').1;
        the_peer = o.the_peer;
        the_local = o.the_local;
        has_socket = refl;
        has_link = refl;
        has_peer = o.has_peer;
        has_local = o.has_local;
      })

  receive-Phase :
      (fuel : ℕ) (h : Host F R M S A) (clock : Clock) (c : Client F R M S A) {c' : Client F R M S A}
      {r : Result TryRecvError ClientEvent}
      → Open c ⊎ Shut c
      → receive fuel h clock c ≡ done (c', r)
      → Open c' ⊎ Shut c'
  unfolding receive
  receive-Phase fuel h clock c {c'} (inl o) run =
      let (c1, run1, last) =
        returns (if c.should_receive then receive_all fuel h clock o.the_socket c else done c)
          (rw (o.has_socket, receive) at run) in
      inl (
        subst Open (ap (λ x. x.0) (done-injective last))
          (pop_event-Open c1 (received c.should_receive c1 run1)))
    where
      received :
          (b : Bool) (c1 : Client F R M S A)
          → (if b then receive_all fuel h clock o.the_socket c else done c) ≡ done c1
          → Open c1
      received true c1 run1 = receive_all-Open fuel h clock o.the_socket c o run1
      received false c1 run1 = subst Open (done-injective run1) o
  receive-Phase fuel h clock c (inr s) run =
      inr (subst Shut (ap (λ x. x.0) (done-injective (rw (s.no_socket, receive) at run))) s)

  send-Phase :
      (auto_tick : Bool) (h : Host F R M S A) (clock : Clock) (now : ℕ) (c : Client F R M S A)
      {c' : Client F R M S A} {r : Result Error Unit} {sleep : ℕ}
      → Open c ⊎ Shut c
      → send auto_tick h clock now c ≡ done (c', r, sleep)
      → Open c' ⊎ Shut c'
  unfolding send
  send-Phase auto_tick h clock now c (inl o) run =
      let (peer, at, run1) = returns (unwrap c.peer_address) (rw (o.has_socket, send) at run) in
      let (k, at_k, run2) = returns (unwrap c.link) run1 in
      let ((k', socket', bytes), at_l, run3) =
        returns (Send.send_packet h.env h.net o.the_socket peer clock k) run2 in
      let (collector, at_s, run4) = returns (Stats.set_bytes_sent bytes c.stats_collector) run3 in
      let (tick, at_t, run5) =
        returns (if auto_tick then Ticker.end_tick h.env.ops now c.ticker else done (c.ticker, 0))
          run4 in
      inl (
        subst Open (ap (λ x. x.0) (done-injective run5)) (record {
          the_socket = socket';
          the_link = k';
          the_peer = o.the_peer;
          the_local = o.the_local;
          has_socket = refl;
          has_link = refl;
          has_peer = o.has_peer;
          has_local = o.has_local;
        }))
  send-Phase auto_tick h clock now c (inr s) run =
      inr (subst Shut (ap (λ x. x.0) (done-injective (rw (s.no_socket, send) at run))) s)

  uses_connection-Phase :
      (c : Client F R M S A) (k k' : Connection F R M A)
      → connection_mut c ≡ Result.ok k
      → Open c ⊎ Shut c
      → Open (record c { link = some k' }) ⊎ Shut (record c { link = some k' })
  unfolding connection_mut
  uses_connection-Phase c k k' given_k (inl o) = inl (record {
    the_socket = o.the_socket;
    the_link = k';
    the_peer = o.the_peer;
    the_local = o.the_local;
    has_socket = o.has_socket;
    has_link = refl;
    has_peer = o.has_peer;
    has_local = o.has_local;
  })
  uses_connection-Phase c k k' given_k (inr s) =
      let never = rw (s.no_link, connection_mut) at given_k in cc

  uses_socket-Phase :
      (c : Client F R M S A) (socket socket' : S)
      → socket_mut c ≡ Result.ok socket
      → Open c ⊎ Shut c
      → Open (record c { socket = some socket' }) ⊎ Shut (record c { socket = some socket' })
  unfolding socket_mut
  uses_socket-Phase c socket socket' given_s (inl o) = inl (record {
    the_socket = socket';
    the_link = o.the_link;
    the_peer = o.the_peer;
    the_local = o.the_local;
    has_socket = refl;
    has_link = o.has_link;
    has_peer = o.has_peer;
    has_local = o.has_local;
  })
  uses_socket-Phase c socket socket' given_s (inr s) =
      let never = rw (s.no_socket, socket_mut) at given_s in cc

  Call-Phase :
      (h : Host F R M S A) {c c' : Client F R M S A}
      → Call h c c'
      → Open c ⊎ Shut c
      → Open c' ⊎ Shut c'
  Call-Phase h {c} (set_configs config run) p = set_config-Phase config c p run
  Call-Phase h {c} (connects resolved random clock run) p =
      connect-Phase h resolved random clock c p run
  Call-Phase h {c} (uses_connection k k' found) p = uses_connection-Phase c k k' found p
  Call-Phase h {c} (uses_socket socket socket' found) p = uses_socket-Phase c socket socket' found p
  Call-Phase h {c} (receives fuel clock run) p = receive-Phase fuel h clock c p run
  Call-Phase h {c} (sends auto_tick clock now run) p = send-Phase auto_tick h clock now c p run
  Call-Phase h {c} (resets clock now run) p = reset-Phase h clock now c p run
  Call-Phase h {c} (disconnects clock now run) p = inr (disconnect-Shut h clock now c p run)

  -- The clients that a new one becomes by calls.
  pub data Reach (h : Host F R M S A) : Client F R M S A → Type 0 where
    starts :
        {c : Client F R M S A} (config : Config F) (now : ℕ) → new config now ≡ done c → Reach h c
    continues : {c c' : Client F R M S A} → Reach h c → Call h c c' → Reach h c'

  -- After any history of calls the client has a socket, a connection and both addresses, or it has
  -- none of them, no events and nothing to receive: what is unwrapped where there is a socket is
  -- always there.
  pub Reach-Phase : (h : Host F R M S A) {c : Client F R M S A} → Reach h c → Open c ⊎ Shut c
  unfolding new
  Reach-Phase h (starts config now run) =
      let (ticker, at, last) = returns (Ticker.new config now) run in
      inr (
        subst Shut (done-injective last) (record {
          no_socket = refl;
          no_link = refl;
          no_peer = refl;
          no_local = refl;
          no_events = refl;
          no_receive = refl;
        }))
  Reach-Phase h (continues reach call) = Call-Phase h call (Reach-Phase h reach)
