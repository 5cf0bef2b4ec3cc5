-- ===== src/Server/Loop.antt =====
-- src/server.rs: the loop over the datagrams that wait at the socket.
use cobalt_rs.Common.{
  ℕ, zero, suc, ◌+◌, ◌≤◌, ◌<◌, ◌≡◌, refl, sym, ap, subst, ◌∙◌, List, [], ◌∷◌, All, length, arith,
  Option, none, some, Option-cases, inl, inr, Returns, given, after,
}
use cobalt_rs.Config.{Config}
use cobalt_rs.Traits.{Clock}
use cobalt_rs.Connection.{id_from_packet}
use cobalt_rs.Connection.Invariant.Accept.{IsByte}
use cobalt_rs.Client.{Host}
use cobalt_rs.Client.Loop.{Drains, Runs}
use cobalt_rs.Server.{Server, lookup}
use cobalt_rs.Server.Receive.{receive_connection_packet, receive_datagram, receive_loop}
use cobalt_rs.Server.Fine.{
  AllFine, AllFine-mono, lookup-AllFine, Kept, receive_known-Kept, receive_new-Kept,
}

-- The bytes of a datagram, if it has an id.
abbrev size_if : Option ℕ → List ℕ → ℕ
size_if none packet = 0
size_if (some id) packet = length packet

module _ {F : Type 0} where
  abbrev pub counted : Config F → List ℕ → ℕ
  counted config packet = size_if (id_from_packet config packet) packet

  abbrev pub bytes_with_id : {A : Type 0} → Config F → List (A × List ℕ) → ℕ
  bytes_with_id config [] = 0
  bytes_with_id config (d ∷ ds) = counted config d.1 + bytes_with_id config ds

module _ {F R M S A : Type 0} where
  receive_connection_packet-Kept :
      (h : Host F R M S A) (clocks : ℕ → Clock) (random id : ℕ) (addr local_addr : A)
      (packet : List ℕ) (before : ℕ) (s : Server F R M S A)
      → All IsByte packet
      → before ≤ clocks 1 0
      → 0 < s.config.send_rate
      → s.local_address ≡ some local_addr
      → AllFine before s.connections
      → Returns
          (receive_connection_packet h clocks random id addr packet s)
          (λ r. Kept (clocks 1 0) s r.0 × (r.1 ≡ length packet))
  unfolding receive_connection_packet
  receive_connection_packet-Kept h clocks random id addr local_addr packet before s is_bytes later
        rate here all =
      elim (Option-cases (lookup id s.connections)) [
        | inl new_id ↦
            rw (new_id, receive_connection_packet)
              (after
                (receive_new-Kept h clocks random id addr local_addr packet before s is_bytes later
                  rate here all)
                (λ s' k. given (k, refl)))
        | inr (k, at) ↦
            rw (at, receive_connection_packet)
              (after
                (receive_known-Kept h (clocks 1) id addr packet before k s is_bytes later
                  (lookup-AllFine before id s.connections k all at) all)
                (λ s' k. given (k, refl)))
      ]

  receive_datagram-Kept :
      (h : Host F R M S A) (clocks : ℕ → Clock) (random : ℕ) (addr local_addr : A) (packet : List ℕ)
      (before : ℕ) (s : Server F R M S A) (bytes : ℕ)
      → All IsByte packet
      → before ≤ clocks 1 0
      → 0 < s.config.send_rate
      → s.local_address ≡ some local_addr
      → AllFine before s.connections
      → Returns
          (receive_datagram h clocks random addr packet s bytes)
          (λ r. Kept (clocks 1 0) s r.0 × (r.1 ≡ bytes + counted s.config packet))
  unfolding receive_datagram
  receive_datagram-Kept h clocks random addr local_addr packet before s bytes is_bytes later rate
        here all =
      elim (Option-cases (id_from_packet s.config packet)) [
        | inl no_id ↦
            rw (no_id, receive_datagram)
              (given (
                record {
                  fine = AllFine-mono s.connections later all;
                  same_config = refl;
                  same_local = refl;
                },
                omega (arith, ap (λ o. size_if o packet) no_id),
              ))
        | inr (id, at) ↦
            rw (at, receive_datagram)
              (after
                (receive_connection_packet-Kept h clocks random id addr local_addr packet before s
                  is_bytes later rate here all)
                (λ r k. given (k.0, omega (arith, k.1, ap (λ o. size_if o packet) at))))
      ]

  -- With more fuel than datagrams wait at the socket, the loop ends once it has no more. Whatever
  -- bytes they consist of and wherever they come from, none makes the server panic, the bytes of
  -- those with an id are counted, and all connections, old and new, keep their invariants. The send
  -- rate is not 0, the server knows its local address, no connection has failed to connect, and the
  -- clock does not go back.
  pub server_receive_loop_lem :
      (h : Host F R M S A) (ds : List (A × List ℕ)) (fuel : ℕ) (clocks : ℕ → ℕ → Clock)
      (random : ℕ → ℕ) (local_addr : A) (socket socket' : S) (before : ℕ) (s : Server F R M S A)
      (bytes : ℕ)
      → length ds < fuel
      → Drains h ds socket socket'
      → All (λ d. All IsByte d.1) ds
      → Runs h (λ i. clocks i 1 0)
      → before ≤ clocks 0 1 0
      → 0 < s.config.send_rate
      → s.local_address ≡ some local_addr
      → AllFine before s.connections
      → Returns (receive_loop fuel h clocks random socket s bytes) (λ r.
        (r.0 ≡ socket')
        × AllFine (clocks (length ds) 1 0) r.1.connections
        × (r.2 ≡ bytes + bytes_with_id s.config ds))
  unfolding receive_loop
  server_receive_loop_lem h ds zero clocks random local_addr socket socket' before s bytes less
        drains is_bytes runs later rate here all =
      ground arith
  server_receive_loop_lem h [] (suc fuel) clocks random local_addr socket socket' before s bytes
        less drains is_bytes runs later rate here all =
      rw (ap (λ x. x.0) drains, ap (λ x. x.1) drains, receive_loop)
        (given (refl, AllFine-mono s.connections later all, omega arith))
  server_receive_loop_lem h (d ∷ ds) (suc fuel) clocks random local_addr socket socket' before s
        bytes less drains is_bytes runs later rate here all =
      let (socket1, first, rest) = drains in
      rw (ap (λ x. x.0) first, ap (λ x. x.1) first, receive_loop)
        (after
          (receive_datagram-Kept h (clocks 0) (random 0) d.0 local_addr d.1 before s bytes
            is_bytes.0 later rate here all)
          (λ r k.
            let (x, run, last) =
              server_receive_loop_lem h ds fuel (λ i. clocks (suc i)) (λ i. random (suc i))
                local_addr socket1 socket' (clocks 0 1 0) r.0 r.1 (omega arith) rest is_bytes.1
                (λ i. runs (suc i)) (runs 0)
                (subst (λ c. 0 < c.send_rate) (sym k.0.same_config) rate) (k.0.same_local ∙ here)
                k.0.fine in
            (
              x,
              run,
              (
                last.0,
                last.1,
                omega (arith, last.2, k.1, ap (λ c. bytes_with_id c ds) k.0.same_config),
              ),
            )))
