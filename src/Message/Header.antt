-- ===== src/Message/Header.antt =====
-- The four header bytes read back what was written into them.
use cobalt_rs.Common.{ℕ, ◌+◌, ◌*◌, ◌/◌, ◌%◌, ◌^◌, ◌<◌, ◌≡◌, ◌∙◌, some, bit_and, bit_or, arith}
use cobalt_rs.Common.Bits.{bit_or_disjoint, low_nibble, high_nibble, third_nibble}
use cobalt_rs.Message.{MessageKind, kind_code, kind_from_code, header_order, header_size}

abbrev pub first_byte : ℕ → MessageKind → ℕ
first_byte order kind = bit_or (bit_and order 0x0F00 / 2 ^ 4 % 256) (kind_code kind)

kind_code-lt : (k : MessageKind) → kind_code k < 3
unfolding kind_code
kind_code-lt k = ground arith

first_byte_lem :
    (order : ℕ) (kind : MessageKind)
    → order < 4096
    → first_byte order kind ≡ order / 256 * 16 + kind_code kind
first_byte_lem order kind h =
    let e : bit_and order 0x0F00 / 2 ^ 4 % 256 ≡ order / 256 * 2 ^ 4 =
      omega (arith, third_nibble order h) in
    rw e (bit_or_disjoint 4 (order / 256) (kind_code kind) (omega (arith, kind_code-lt kind)))

pub kind-first_byte :
    (order : ℕ) (kind : MessageKind)
    → order < 4096
    → kind_from_code (bit_and (first_byte order kind) 0x0F) ≡ some kind
kind-first_byte order kind h =
    let e : bit_and (first_byte order kind) 0x0F ≡ kind_code kind =
      omega (
        arith,
        first_byte_lem order kind h,
        kind_code-lt kind,
        low_nibble (first_byte order kind),
      ) in
    rw e (known kind)
  where
    known : (k : MessageKind) → kind_from_code (kind_code k) ≡ some k
    known k = unfold kind_from_code kind_code in ground arith

pub order-first_byte :
    (order : ℕ) (kind : MessageKind)
    → order < 4096
    → header_order (first_byte order kind) (order % 256) ≡ order
unfolding header_order
order-first_byte order kind h =
    let e : bit_and (first_byte order kind) 0xF0 * 2 ^ 4 ≡ order / 256 * 2 ^ 8 = omega (
      arith,
      first_byte_lem order kind h,
      kind_code-lt kind,
      high_nibble (first_byte order kind)
          (omega (arith, first_byte_lem order kind h, kind_code-lt kind)),
    ) in
    rw e (bit_or_disjoint 8 (order / 256) (order % 256) (omega arith) ∙ omega arith)

pub header_size_lem :
    (size : ℕ) → size < 2 ^ 16 → header_size (size / 2 ^ 8 % 256) (size % 256) ≡ size
unfolding header_size
header_size_lem size h =
    bit_or_disjoint 8 (size / 2 ^ 8 % 256) (size % 256) (omega arith) ∙ omega arith

-- Whatever two bytes come in, the fields are in range.
pub header_order-lt : (b0 b1 : ℕ) → b0 < 256 → b1 < 256 → header_order b0 b1 < 4096
unfolding header_order
header_order-lt b0 b1 h k =
    let e : bit_and b0 0xF0 * 2 ^ 4 ≡ b0 / 16 * 2 ^ 8 = omega (arith, high_nibble b0 h) in
    rw (e, bit_or_disjoint 8 (b0 / 16) b1 k) (omega arith)

pub header_size-lt : (b2 b3 : ℕ) → b2 < 256 → b3 < 256 → header_size b2 b3 < 2 ^ 16
unfolding header_size
header_size-lt b2 b3 h k = omega (arith, bit_or_disjoint 8 b2 b3 k)
