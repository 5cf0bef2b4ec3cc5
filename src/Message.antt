-- ===== src/Message.antt =====
-- src/shared/message_queue.rs: the messages, and how one is laid out in a packet. A byte is a
-- number; the parser's `index` is shown by the bytes from it on.
pub mod Header
pub mod RoundTrip
pub mod Bounds
use cobalt_rs.Common.{
  ℕ, zero, suc, ◌+◌, ◌*◌, ◌/◌, ◌%◌, ◌^◌, ◌<◌, ◌≡◌, List, [], ◌∷◌, ◌++◌, Option, none, some, ◌==◌,
  if◌then◌else◌, bit_and, bit_or, length, take, drop,
}

pub data MessageKind : Type 0 where
  instant reliable ordered : MessageKind

pub record Message : Type 0 where
  pub kind : MessageKind
  pub order : ℕ  -- u16
  pub size : ℕ  -- u16
  pub bytes : List ℕ  -- the field `data`

-- Ids of ordered messages wrap around here.
abbrev pub max_order_id : ℕ
max_order_id = 4096

abbrev pub message_header_bytes : ℕ
message_header_bytes = 4

-- `kind as u8`
unfoldable pub kind_code : MessageKind → ℕ
kind_code instant = 0
kind_code reliable = 1
kind_code ordered = 2

-- The kind that the low four bits of the first byte name, if any.
unfoldable pub kind_from_code : ℕ → Option MessageKind
kind_from_code c =
    if c == 0
    then some instant
    else if c == 1
    then some reliable
    else if c == 2
    then some ordered
    else none

-- The bytes that `write_message` pushes for one message.
unfoldable pub serialize : Message → List ℕ
unfolding kind_code
serialize m =
    bit_or (bit_and m.order 0x0F00 / 2 ^ 4 % 256) (kind_code m.kind)
    ∷ (m.order % 256)
    ∷ (m.size / 2 ^ 8 % 256)
    ∷ (m.size % 256)
    ∷ m.bytes

unfoldable pub header_order : ℕ → ℕ → ℕ
header_order b0 b1 = bit_or (bit_and b0 0xF0 * 2 ^ 4) b1

unfoldable pub header_size : ℕ → ℕ → ℕ
header_size b2 b3 = bit_or (b2 * 2 ^ 8) b3

-- A message of an unknown kind is left out. The slice ends with the packet where `size` is larger.
unfoldable pub push_message : Option MessageKind → ℕ → ℕ → List ℕ → List Message → List Message
push_message none order size rest messages = messages
push_message (some kind) order size rest messages =
    (record { kind = kind; order = order; size = size; bytes = take size rest }) ∷ messages

-- The loop of `messages_from_packet`: one round for each header of four bytes that is there.
unfoldable pub messages_loop : ℕ → List ℕ → List Message
unfolding push_message header_order header_size kind_from_code
messages_loop (suc fuel) (b0 ∷ b1 ∷ b2 ∷ b3 ∷ rest) =
    let size = header_size b2 b3 in
    push_message (kind_from_code (bit_and b0 0x0F)) (header_order b0 b1) size rest
      (messages_loop fuel (drop size rest))
messages_loop _ _ = []

-- Each round takes four bytes at least, so `length packet` rounds are enough.
unfoldable pub messages_from_packet : List ℕ → List Message
unfolding messages_loop
messages_from_packet packet = messages_loop (length packet) packet

-- A message that its header can describe: what `send` makes of a payload below 64 KiB.
pub record IsWellFormed (m : Message) : Type 0 where
  pub order_lt : m.order < max_order_id
  pub size_lt : m.size < 2 ^ 16
  pub exact : length m.bytes ≡ m.size

abbrev pub serialize_all : List Message → List ℕ
serialize_all [] = []
serialize_all (m ∷ ms) = serialize m ++ serialize_all ms
