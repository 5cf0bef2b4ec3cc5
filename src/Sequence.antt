-- ===== src/Sequence.antt =====
-- src/shared/connection.rs: the helpers on packet sequence numbers, and the acknowledgement
-- bitfield of a packet.
pub mod Order
pub mod Acks
pub mod Bytes
use cobalt_rs.Common.{
  ℕ, ◌+◌, ◌-◌, ◌*◌, ◌/◌, ◌%◌, ◌^◌, Bool, true, false, ◌&&◌, ◌||◌, not, List, [], ◌∷◌, ltb, leb,
  ◌==◌, if◌then◌else◌, bit_and, bit_or, Outcome, done, checked_sub, ◌>>=◌,
}

abbrev pub max_ack_bits : ℕ
max_ack_bits = 32

abbrev pub max_seq_number : ℕ
max_seq_number = 256

unfoldable pub seq_is_more_recent : ℕ → ℕ → Bool
seq_is_more_recent a b =
    (ltb b a && leb (a - b) (max_seq_number / 2)) || (ltb a b && ltb (max_seq_number / 2) (b - a))

-- The subtractions are on `u32`.
unfoldable pub seq_bit_index : ℕ → ℕ → Outcome ℕ
seq_bit_index seq ack =
    if ltb ack seq
    then checked_sub (max_seq_number - 1) seq >>= (λ d. done (ack + d))
    else checked_sub ack 1 >>= (λ a. checked_sub a seq)

-- `1 << bit` with `bit < 32`
unfoldable pub seq_was_acked : ℕ → ℕ → ℕ → Outcome Bool
unfolding seq_bit_index
seq_was_acked seq ack bitfield =
    if seq == ack
    then done true
    else seq_bit_index seq ack
      >>= (λ bit. done (ltb bit max_ack_bits && not (bit_and bitfield (2 ^ bit) == 0)))

-- One round of the loop over the received sequence numbers in `send_packet`.
unfoldable pub set_ack_bit : ℕ → ℕ → ℕ → Outcome ℕ
unfolding seq_bit_index
set_ack_bit seq remote bitfield =
    if seq == remote
    then done bitfield
    else seq_bit_index seq remote
      >>= (λ bit. done (if ltb bit max_ack_bits then bit_or bitfield (2 ^ bit) else bitfield))

unfoldable pub ack_bitfield : List ℕ → ℕ → ℕ → Outcome ℕ
unfolding set_ack_bit
ack_bitfield [] remote bitfield = done bitfield
ack_bitfield (seq ∷ seqs) remote bitfield = do
  bits ← set_ack_bit seq remote bitfield
  ack_bitfield seqs remote bits

-- A `u32` as the four bytes that `push((x >> 24) as u8)` and so on write.
unfoldable pub u32_bytes : ℕ → List ℕ
u32_bytes x = (x / 2 ^ 24 % 256) ∷ (x / 2 ^ 16 % 256) ∷ (x / 2 ^ 8 % 256) ∷ (x % 256) ∷ []

-- `(b0 as u32) << 24 | (b1 as u32) << 16 | (b2 as u32) << 8 | b3 as u32`
unfoldable pub u32_from_bytes : ℕ → ℕ → ℕ → ℕ → ℕ
u32_from_bytes b0 b1 b2 b3 = bit_or (bit_or (bit_or (b0 * 2 ^ 24) (b1 * 2 ^ 16)) (b2 * 2 ^ 8)) b3
