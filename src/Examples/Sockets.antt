-- ===== src/Examples/Sockets.antt =====
-- Runs of src/shared/udp_socket.rs.
use cobalt_rs.Common.{
  ℕ, min, ◌≡◌, refl, List, [], ◌∷◌, ◌++◌, Option, none, some, length, take, drop, done,
}
use cobalt_rs.UdpSocket.{NetUdpSocket, UdpSocket, new}
use cobalt_rs.UdpSocket.Datagrams.{Copies, recv_times, recv_times-new}

-- A system's socket that holds the datagrams that wait.
abbrev Waiting : Type 0
Waiting = List (ℕ × List ℕ)

abbrev next : Waiting → Option (ℕ × List ℕ) × Waiting
next [] = (none, [])
next (d ∷ ds) = (some d, ds)

abbrev system : NetUdpSocket Waiting ℕ
system = record {
  bind = λ a. some ((7, 1 ∷ 2 ∷ 3 ∷ 4 ∷ []) ∷ (8, 5 ∷ []) ∷ []);
  set_nonblocking = λ o. some o;
  recv_from = λ o buffer. elim o [
    | [] ↦ (none, buffer, [])
    | d ∷ ds ↦ (
      some (min (length d.1) (length buffer), d.0),
      take (length buffer) d.1 ++ drop (length d.1) buffer,
      ds,
    )
  ];
  send_bytes = λ o bytes a. (some (length bytes), o);
  local_address = λ o. some 1;
}

system-Copies : Copies system next
system-Copies [] buffer = refl
system-Copies ((src, datagram) ∷ ds) buffer = refl

abbrev opened : UdpSocket Waiting
opened = record { socket = (7, 1 ∷ 2 ∷ 3 ∷ 4 ∷ []) ∷ (8, 5 ∷ []) ∷ []; buffer = 0 ∷ 0 ∷ 0 ∷ [] }

-- The first datagram is cut, and none of it is left in the second.
recv_times-new_example :
    recv_times system 3 opened ≡ done (some (7, 1 ∷ 2 ∷ 3 ∷ []) ∷ some (8, 5 ∷ []) ∷ none ∷ [])
unfolding new
recv_times-new_example = recv_times-new system next 5 3 3 opened system-Copies refl
