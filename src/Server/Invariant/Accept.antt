-- ===== src/Server/Invariant/Accept.antt =====
-- src/server.rs: the tables under the loop of `accept_receive`.
use cobalt_rs.Common.{
  ℕ, zero, suc, ◌+◌, ◌%◌, ◌^◌, ◌≡◌, subst, List, Option, none, some, Bool, true, false,
  if◌then◌else◌, inl, inr, done, returns, done-injective, ◌>>=◌, List-cases,
}
use cobalt_rs.Traits.{Clock}
use cobalt_rs.Connection.{id_from_packet}
use cobalt_rs.Stats
use cobalt_rs.Ticker
use cobalt_rs.Client.{Host, TryRecvError, Result}
use cobalt_rs.Server.{Server, ServerEvent}
use cobalt_rs.Server.Receive.{
  receive_connection_packet, receive_datagram, receive_loop, receive_all, pop_event, accept_receive,
}
use cobalt_rs.Server.Invariant.{IsTabled}
use cobalt_rs.Server.Invariant.Receive.{receive_connection_packet-IsTabled}

module _ {F R M S A : Type 0} where
  receive_datagram-IsTabled :
      (h : Host F R M S A) (clocks : ℕ → Clock) (random : ℕ) (addr : A) (packet : List ℕ)
      (s : Server F R M S A) (bytes : ℕ) {r : Server F R M S A × ℕ}
      → IsTabled s
      → receive_datagram h clocks random addr packet s bytes ≡ done r
      → IsTabled r.0
  unfolding receive_datagram
  receive_datagram-IsTabled h clocks random addr packet s bytes {r} inv run =
      by_case (id_from_packet s.config packet) run
    where
      by_case :
          (o : Option ℕ)
          → elim o [
            | none ↦ done (s, bytes)
            | some id ↦
                receive_connection_packet h clocks random id addr packet s
                >>= (λ r. done (r.0, bytes + r.1))
          ]
            ≡ done r
          → IsTabled r.0
      by_case none h' = subst (λ x. IsTabled x.0) (done-injective h') inv
      by_case (some id) h' =
          let (x, run1, last) =
            returns (receive_connection_packet h clocks random id addr packet s) h' in
          subst (λ x. IsTabled x.0) (done-injective last)
            (receive_connection_packet-IsTabled h clocks random id addr packet s inv run1)

  receive_loop-IsTabled :
      (fuel : ℕ) (h : Host F R M S A) (clocks : ℕ → ℕ → Clock) (random : ℕ → ℕ) (socket : S)
      (s : Server F R M S A) (bytes : ℕ) {r : S × Server F R M S A × ℕ}
      → IsTabled s
      → receive_loop fuel h clocks random socket s bytes ≡ done r
      → IsTabled r.1
  unfolding receive_loop
  receive_loop-IsTabled zero h clocks random socket s bytes inv run = cc
  receive_loop-IsTabled (suc fuel) h clocks random socket s bytes {r} inv run =
      by_case (h.net.try_recv socket).0 run (λ s1 bytes1 inv1 run1.
        receive_loop-IsTabled fuel h (λ i. clocks (suc i)) (λ i. random (suc i))
          (h.net.try_recv socket).1 s1 bytes1 inv1 run1)
    where
      by_case :
          (o : Option (A × List ℕ))
          → elim o [
            | none ↦ done ((h.net.try_recv socket).1, s, bytes)
            | some (addr, packet) ↦
                receive_datagram h (clocks 0) (random 0) addr packet s bytes >>= (λ r.
                  receive_loop fuel h
                    (λ i. clocks (suc i))
                    (λ i. random (suc i))
                    (h.net.try_recv socket).1
                    r.0
                    r.1)
          ]
            ≡ done r
          → ((s1 : Server F R M S A) (bytes1 : ℕ)
              → IsTabled s1
              → receive_loop fuel h
                  (λ i. clocks (suc i))
                  (λ i. random (suc i))
                  (h.net.try_recv socket).1
                  s1
                  bytes1
                ≡ done r
              → IsTabled r.1)
          → IsTabled r.1
      by_case none h' again = subst (λ x. IsTabled x.1) (done-injective h') inv
      by_case (some (addr, packet)) h' again =
          let (x, run1, rest) =
            returns (receive_datagram h (clocks 0) (random 0) addr packet s bytes) h' in
          again x.0 x.1
            (receive_datagram-IsTabled h (clocks 0) (random 0) addr packet s bytes inv run1) rest

  receive_all-IsTabled :
      (fuel : ℕ) (h : Host F R M S A) (now : ℕ) (clocks : ℕ → ℕ → Clock) (random : ℕ → ℕ)
      (socket : S) (s : Server F R M S A) {s' : Server F R M S A}
      → IsTabled s
      → receive_all fuel h now clocks random socket s ≡ done s'
      → IsTabled s'
  unfolding receive_all
  receive_all-IsTabled fuel h now clocks random socket s inv run =
      let begun : Server F R M S A = record s { ticker = Ticker.begin_tick now s.ticker } in
      let ((socket', s1, bytes), run1, run2) =
        returns (receive_loop fuel h clocks random socket begun 0) run in
      let (collector, _, last) =
        returns (Stats.set_bytes_received (bytes % 2 ^ 32) s1.stats_collector) run2 in
      subst IsTabled (done-injective last)
        (receive_loop-IsTabled fuel h clocks random socket begun 0 inv run1)

  pop_event-IsTabled : (s : Server F R M S A) → IsTabled s → IsTabled (pop_event s).0
  unfolding pop_event
  pop_event-IsTabled s inv = elim (List-cases s.events) [
    | inl n ↦ rw (n, pop_event) inv
    | inr (e, es, n) ↦ rw (n, pop_event) inv
  ]

  pub accept_receive-IsTabled :
      (fuel : ℕ) (h : Host F R M S A) (now : ℕ) (clocks : ℕ → ℕ → Clock) (random : ℕ → ℕ)
      (s : Server F R M S A) {r : Server F R M S A × Result TryRecvError ServerEvent}
      → IsTabled s
      → accept_receive fuel h now clocks random s ≡ done r
      → IsTabled r.0
  unfolding accept_receive
  accept_receive-IsTabled fuel h now clocks random s {r} inv run =
      by_case s.socket s.should_receive run
    where
      by_case :
          (o : Option S) (b : Bool)
          → elim o [
            | none ↦ done (s, Result.err TryRecvError.disconnected)
            | some socket ↦
                (if b then receive_all fuel h now clocks random socket s else done s)
                >>= (λ s'. done (pop_event s'))
          ]
            ≡ done r
          → IsTabled r.0
      by_case none b h' = subst (λ x. IsTabled x.0) (done-injective h') inv
      by_case (some socket) true h' =
          let (s1, run1, last) = returns (receive_all fuel h now clocks random socket s) h' in
          subst (λ x. IsTabled x.0) (done-injective last)
            (pop_event-IsTabled s1
              (receive_all-IsTabled fuel h now clocks random socket s inv run1))
      by_case (some socket) false h' =
          subst (λ x. IsTabled x.0) (done-injective h') (pop_event-IsTabled s inv)
