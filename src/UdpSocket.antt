-- ===== src/UdpSocket.antt =====
-- src/shared/udp_socket.rs: the socket over the operating system's, which is a parameter. `none` is an
-- error of any kind.
pub mod Datagrams
use cobalt_rs.Common.{
  ℕ, zero, suc, List, [], ◌∷◌, Option, none, some, leb, length, take, if◌then◌else◌, Outcome, done,
  panic, ◌>>=◌,
}

-- `std::net::UdpSocket`. `recv_from` is given the buffer and returns it with the count of the bytes that
-- were received and their source.
pub record NetUdpSocket (O A : Type 0) : Type 0 where
  pub bind : A → Option O
  pub set_nonblocking : O → Option O
  pub recv_from : O → List ℕ → Option (ℕ × A) × List ℕ × O
  pub send_bytes : O → List ℕ → A → Option ℕ × O
  pub local_address : O → Option A

pub record UdpSocket (O : Type 0) : Type 0 where
  pub socket : O
  pub buffer : List ℕ

-- `iter::repeat(0).take(n).collect()`
abbrev pub zeros : ℕ → List ℕ
zeros zero = []
zeros (suc n) = 0 ∷ zeros n

-- `buffer[..n].to_vec()`
unfoldable pub slice_to : ℕ → List ℕ → Outcome (List ℕ)
slice_to n buffer = if leb n (length buffer) then done (take n buffer) else panic

module _ {O A : Type 0} (os : NetUdpSocket O A) where
  unfoldable pub new : A → ℕ → Option (UdpSocket O)
  new address max_packet_size = elim (os.bind address) [
    | none ↦ none
    | some bound ↦ elim (os.set_nonblocking bound) [
      | none ↦ none
      | some socket ↦ some (record { socket = socket; buffer = zeros max_packet_size })
    ]
  ]

  unfoldable pub try_recv : UdpSocket O → Outcome (Option (A × List ℕ) × UdpSocket O)
  unfolding slice_to
  try_recv s =
      let (received, buffer, socket) = os.recv_from s.socket s.buffer in
      let s' = record s { socket = socket; buffer = buffer } in
      elim received [
        | none ↦ done (none, s')
        | some (len, src) ↦ slice_to len buffer >>= (λ packet. done (some (src, packet), s'))
      ]

  unfoldable pub send_to : UdpSocket O → List ℕ → A → Option ℕ × UdpSocket O
  send_to s bytes addr =
      let (sent, socket) = os.send_bytes s.socket bytes addr in (sent, record s { socket = socket })

  unfoldable pub local_addr : UdpSocket O → Option A
  local_addr s = os.local_address s.socket
