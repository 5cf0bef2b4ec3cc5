-- ===== src/UdpSocket/Datagrams.antt =====
-- src/shared/udp_socket.rs: what is received where the system's socket delivers datagrams.
use cobalt_rs.Common.{
  ℕ, zero, suc, min, ◌≡◌, refl, sym, ap, ◌∙◌, List, [], ◌∷◌, ◌++◌, Option, none, some, leb, length,
  take, drop, arith, Outcome, done, ◌>>=◌, length-append, length-take, length-drop,
  take-append_exact, true, ap₂,
}
use mathlib.Core.Option
use mathlib.Core.Option.{some-injective}
use cobalt_rs.UdpSocket.{NetUdpSocket, UdpSocket, zeros, slice_to, new, try_recv}

-- What is left of a datagram in a buffer of `size` bytes.
abbrev pub cut : {A : Type 0} → ℕ → A × List ℕ → A × List ℕ
cut size (src, datagram) = (src, take size datagram)

module _ {O A : Type 0} where
  -- What `recv_from` is documented to do, where `next` is the datagram that waits next, if any: the
  -- datagram's bytes are copied to the front of the buffer, those that do not fit are discarded, and the
  -- count of the copied ones is returned.
  abbrev pub Copies : NetUdpSocket O A → (O → Option (A × List ℕ) × O) → Type 0
  Copies os next =
      (o : O) (buffer : List ℕ)
      → os.recv_from o buffer ≡ (elim (next o).0 [
        | none ↦ (none, buffer, (next o).1)
        | some (src, datagram) ↦ (
          some (min (length datagram) (length buffer), src),
          take (length buffer) datagram ++ drop (length datagram) buffer,
          (next o).1,
        )
      ])

  -- What `n` calls receive, `none` for a call that receives nothing.
  abbrev pub recv_times : NetUdpSocket O A → ℕ → UdpSocket O → Outcome (List (Option (A × List ℕ)))
  recv_times os zero s = done []
  recv_times os (suc n) s = do
    (received, s') ← try_recv os s
    rest ← recv_times os n s'
    done (received ∷ rest)

  -- The datagrams that wait, cut to the size.
  abbrev pub next_times : (O → Option (A × List ℕ) × O) → ℕ → ℕ → O → List (Option (A × List ℕ))
  next_times next size zero o = []
  next_times next size (suc n) o =
      Option.map (cut size) (next o).0 ∷ next_times next size n (next o).1

length-zeros : (n : ℕ) → length (zeros n) ≡ n
length-zeros zero = omega arith
length-zeros (suc n) = omega (arith, length-zeros n)

-- The buffer behind a datagram that was copied into it, and the datagram read from it.
copied_size :
    (datagram buffer : List ℕ)
    → length (take (length buffer) datagram ++ drop (length datagram) buffer) ≡ length buffer
copied_size datagram buffer = omega (
  arith,
  length-append (take (length buffer) datagram) (drop (length datagram) buffer),
  length-take (length buffer) datagram,
  length-drop (length datagram) buffer,
)

copied_slice :
    (datagram buffer : List ℕ)
    → slice_to
        (min (length datagram) (length buffer))
        (take (length buffer) datagram ++ drop (length datagram) buffer)
      ≡ done (take (length buffer) datagram)
unfolding slice_to
copied_slice datagram buffer =
    let count : min (length datagram) (length buffer) ≡ length (take (length buffer) datagram) =
      omega (arith, length-take (length buffer) datagram) in
    let fits : leb (min (length datagram) (length buffer))
          (length (take (length buffer) datagram ++ drop (length datagram) buffer))
        ≡ true =
      ground (arith, copied_size datagram buffer) in
    rw fits (
      ap done (
        ap (λ n. take n (take (length buffer) datagram ++ drop (length datagram) buffer)) count
        ∙ take-append_exact (take (length buffer) datagram) (drop (length datagram) buffer)))

module _ {O A : Type 0} where
  -- What `try_recv` does with what the system gives it.
  abbrev after_recv :
      UdpSocket O → Option (ℕ × A) × List ℕ × O → Outcome (Option (A × List ℕ) × UdpSocket O)
  unfolding slice_to
  after_recv s (received, buffer, socket) =
      let s' = record s { socket = socket; buffer = buffer } in
      elim received [
        | none ↦ done (none, s')
        | some (len, src) ↦ slice_to len buffer >>= (λ packet. done (some (src, packet), s'))
      ]

  -- A call receives the next datagram, cut to the length of the buffer, and keeps that length.
  try_recv_next :
      (os : NetUdpSocket O A) (next : O → Option (A × List ℕ) × O) (s : UdpSocket O)
      → Copies os next
      → (s' : UdpSocket O) × (try_recv os s
          ≡ done (Option.map (cut (length s.buffer)) (next s.socket).0, s'))
        × (s'.socket ≡ (next s.socket).1)
        × (length s'.buffer ≡ length s.buffer)
  unfolding try_recv
  try_recv_next os next s copies = by_case (next s.socket).0 (copies s.socket s.buffer)
    where
      by_case :
          (o : Option (A × List ℕ))
          → os.recv_from s.socket s.buffer ≡ (elim o [
            | none ↦ (none, s.buffer, (next s.socket).1)
            | some (src, datagram) ↦ (
              some (min (length datagram) (length s.buffer), src),
              take (length s.buffer) datagram ++ drop (length datagram) s.buffer,
              (next s.socket).1,
            )
          ])
          → (s' : UdpSocket O) × (try_recv os s ≡ done (Option.map (cut (length s.buffer)) o, s'))
            × (s'.socket ≡ (next s.socket).1)
            × (length s'.buffer ≡ length s.buffer)
      by_case none h = (
        record { socket = (next s.socket).1; buffer = s.buffer },
        ap (after_recv s) h,
        refl,
        refl,
      )
      by_case (some (src, datagram)) h = (
        record {
          socket = (next s.socket).1;
          buffer = take (length s.buffer) datagram ++ drop (length datagram) s.buffer;
        },
        ap (after_recv s) h ∙ rw (copied_slice datagram s.buffer) refl,
        refl,
        copied_size datagram s.buffer,
      )

  recv_times_next :
      (os : NetUdpSocket O A) (next : O → Option (A × List ℕ) × O) (n : ℕ) (s : UdpSocket O)
      → Copies os next
      → recv_times os n s ≡ done (next_times next (length s.buffer) n s.socket)
  recv_times_next os next zero s copies = refl
  recv_times_next os next (suc n) s copies =
      let (s', run, at, size) = try_recv_next os next s copies in
      rw (run, recv_times os n s', recv_times_next os next n s' copies)
        (ap₂
          (λ o size.
            done (Option.map (cut (length s.buffer)) (next s.socket).0 ∷ next_times next size n o))
          at size)

  -- A socket that was made for packets of at most `size` bytes receives, over any number of calls and
  -- without a panic, the datagrams that wait, in their order and cut to `size` bytes; bytes of earlier
  -- datagrams that are left in the buffer never show. The system's socket copies datagrams as it is
  -- documented to.
  pub recv_times-new :
      (os : NetUdpSocket O A) (next : O → Option (A × List ℕ) × O) (address : A) (size n : ℕ)
      (s : UdpSocket O)
      → Copies os next
      → new os address size ≡ some s
      → recv_times os n s ≡ done (next_times next size n s.socket)
  unfolding new
  recv_times-new os next address size n s copies made =
      recv_times_next os next n s copies
      ∙ ap (λ t. done (next_times next t n s.socket)) (bound (os.bind address) made)
    where
      ready :
          (o : Option O)
          → elim o [
            | none ↦ none
            | some socket ↦ some (record { socket = socket; buffer = zeros size })
          ]
            ≡ some s
          → length s.buffer ≡ size
      ready none h = cc
      ready (some socket) h =
          sym (
            ap (λ x. length x.buffer)
              (some-injective (record { socket = socket; buffer = zeros size }) s h))
          ∙ length-zeros size

      bound :
          (o : Option O)
          → elim o [
            | none ↦ none
            | some socket0 ↦ elim (os.set_nonblocking socket0) [
              | none ↦ none
              | some socket ↦ some (record { socket = socket; buffer = zeros size })
            ]
          ]
            ≡ some s
          → length s.buffer ≡ size
      bound none h = cc
      bound (some socket0) h = ready (os.set_nonblocking socket0) h
