-- ===== src/Client/Loop.antt =====
-- The loop over the datagrams that wait at the socket.
use cobalt_rs.Common.{
  ℕ, zero, suc, ◌+◌, ◌≤◌, ◌<◌, ◌≡◌, refl, sym, ap, subst, List, [], ◌∷◌, All, length, arith, none,
  some, Bool-cases, inl, inr, if◌then◌else◌, Returns, given, after, Outcome, done, ◌>>=◌, returns,
  done-injective, ◌∙◌, Bool, true, false,
}
use cobalt_rs.Traits.{Clock}
use cobalt_rs.Connection.{Connection}
use cobalt_rs.Connection.Receive.{receive_packet}
use cobalt_rs.Connection.Invariant.{IsValid}
use cobalt_rs.Connection.Invariant.Accept.{IsByte, IsValid-mono, receive_packet_lem}
use cobalt_rs.Client.{Host, receive_datagram, receive_loop}

module _ {F R M S A : Type 0} (h : Host F R M S A) where
  -- The socket gives these datagrams and then none.
  abbrev pub Drains : List (A × List ℕ) → S → S → Type 0
  Drains [] s s' = h.net.try_recv s ≡ (none, s')
  Drains (d ∷ ds) s s' = (s1 : S) × (h.net.try_recv s ≡ (some d, s1)) × Drains ds s1 s'

  -- The bytes of the datagrams from the peer.
  abbrev pub bytes_from : A → List (A × List ℕ) → ℕ
  bytes_from peer [] = 0
  bytes_from peer (d ∷ ds) = (if h.same_addr d.0 peer then length d.1 else 0) + bytes_from peer ds

  -- The packets of the peer, each with the clock as it is read when the loop comes to it.
  abbrev pub packets_from : A → Clock → List (A × List ℕ) → List (List ℕ × Clock)
  packets_from peer clock [] = []
  packets_from peer clock (d ∷ ds) =
      let rest = packets_from peer (λ i. clock (suc i)) ds in
      if h.same_addr d.0 peer then (d.1, clock) ∷ rest else rest

  -- A connection receives packets, one after the other.
  abbrev pub receive_each :
      List (List ℕ × Clock) → Connection F R M A → Outcome (Connection F R M A)
  receive_each [] k = done k
  receive_each ((packet, clock) ∷ ps) k =
      receive_packet h.env packet clock k >>= (λ r. receive_each ps r.0)

  -- The clock does not go back.
  abbrev pub Runs : Clock → Type 0
  Runs clock = (i : ℕ) → clock i ≤ clock (suc i)

  -- After one datagram: the invariant, the configuration, the count of bytes, and the result.
  record Received (now : ℕ) (k : Connection F R M A) (bytes : ℕ)
      (one : Outcome (Connection F R M A)) (k' : Connection F R M A) (bytes' : ℕ) : Type 0 where
    valid : IsValid now k'
    same_config : k'.config ≡ k.config
    counted : bytes' ≡ bytes
    same_result : one ≡ done k'

  receive_datagram-Received :
      (clock : Clock) (peer addr : A) (packet : List ℕ) (before : ℕ) (k : Connection F R M A)
      (bytes : ℕ)
      → 0 < k.config.send_rate
      → All IsByte packet
      → before ≤ clock 0
      → IsValid before k
      → Returns (receive_datagram h clock peer addr packet k bytes) (λ r.
        Received
          (clock 0)
          k
          (bytes + (if h.same_addr addr peer then length packet else 0))
          (if h.same_addr addr peer
            then receive_packet h.env packet clock k >>= (λ r. done r.0)
            else done k)
          r.0
          r.1)
  unfolding receive_datagram
  receive_datagram-Received clock peer addr packet before k bytes rate is_bytes later v =
      elim (Bool-cases (h.same_addr addr peer)) [
        | inl t ↦ rw t (
            let (r, run, w) =
              receive_packet_lem h.env packet before clock k rate is_bytes later v in
            rw run (
              given
                (record { valid = w.0; same_config = w.1; counted = refl; same_result = refl })))
        | inr t ↦ rw t (
            given (record {
              valid = IsValid-mono k later v;
              same_config = refl;
              counted = omega arith;
              same_result = refl;
            }))
      ]

  -- One datagram, and then the others.
  each_first :
      (peer : A) (clock : Clock) (d : A × List ℕ) (ds : List (A × List ℕ))
      (k k1 : Connection F R M A) {o : Outcome (Connection F R M A)}
      → (if h.same_addr d.0 peer
          then receive_packet h.env d.1 clock k >>= (λ r. done r.0)
          else done k)
        ≡ done k1
      → receive_each (packets_from peer (λ i. clock (suc i)) ds) k1 ≡ o
      → receive_each (packets_from peer clock (d ∷ ds)) k ≡ o
  each_first peer clock d ds k k1 {o} first rest = by_case (h.same_addr d.0 peer) first
    where
      by_case :
          (b : Bool)
          → (if b then receive_packet h.env d.1 clock k >>= (λ r. done r.0) else done k) ≡ done k1
          → receive_each
              (if b
                then (d.1, clock) ∷ packets_from peer (λ i. clock (suc i)) ds
                else packets_from peer (λ i. clock (suc i)) ds)
              k
            ≡ o
      by_case true e =
          let (r, run, last) = returns (receive_packet h.env d.1 clock k) e in
          rw run (
            ap (receive_each (packets_from peer (λ i. clock (suc i)) ds)) (done-injective last)
            ∙ rest)
      by_case false e =
          ap (receive_each (packets_from peer (λ i. clock (suc i)) ds)) (done-injective e) ∙ rest

  -- With more fuel than datagrams wait at the socket, the loop ends once it has no more. Those of the
  -- peer are counted, and the connection is what `receive_packet` makes of them, in their order and of
  -- no others, without a panic; its invariant is kept. The datagrams are bytes, the send rate is not 0,
  -- and the clock does not go back.
  pub receive_loop_lem :
      (ds : List (A × List ℕ)) (fuel : ℕ) (clock : Clock) (peer : A) (s s' : S) (before : ℕ)
      (k : Connection F R M A) (bytes : ℕ)
      → length ds < fuel
      → Drains ds s s'
      → All (λ d. All IsByte d.1) ds
      → Runs clock
      → before ≤ clock 0
      → 0 < k.config.send_rate
      → IsValid before k
      → Returns (receive_loop fuel h clock peer s k bytes) (λ r.
        (r.0 ≡ s')
        × (receive_each (packets_from peer clock ds) k ≡ done r.1)
        × IsValid (clock (length ds)) r.1
        × (r.2 ≡ bytes + bytes_from peer ds))
  unfolding receive_loop
  receive_loop_lem ds zero clock peer s s' before k bytes less drains is_bytes runs later rate v =
      ground arith
  receive_loop_lem [] (suc fuel) clock peer s s' before k bytes less drains is_bytes runs later rate
        v =
      rw (ap (λ x. x.0) drains, ap (λ x. x.1) drains, receive_loop)
        (given (refl, refl, IsValid-mono k later v, omega arith))
  receive_loop_lem (d ∷ ds) (suc fuel) clock peer s s' before k bytes less drains is_bytes runs
        later rate v =
      let (s1, first, rest) = drains in
      rw (ap (λ x. x.0) first, ap (λ x. x.1) first, receive_loop)
        (after (receive_datagram-Received clock peer d.0 d.1 before k bytes rate is_bytes.0 later v)
          (λ r w.
            let (x, run, last) =
              receive_loop_lem ds fuel (λ i. clock (suc i)) peer s1 s' (clock 0) r.0 r.1
                (omega arith) rest is_bytes.1 (λ i. runs (suc i)) (runs 0)
                (subst (λ c. 0 < c.send_rate) (sym w.same_config) rate) w.valid in
            (
              x,
              run,
              (
                last.0,
                each_first peer clock d ds k r.0 w.same_result last.1,
                last.2,
                omega (arith, last.3, w.counted),
              ),
            )))
