-- ===== src/Sequence/Bytes.antt =====
-- A `u32` in four bytes of a packet.
use cobalt_rs.Common.{ℕ, ◌+◌, ◌*◌, ◌/◌, ◌%◌, ◌^◌, ◌<◌, ◌≡◌, ◌∙◌, arith, bit_or}
use cobalt_rs.Common.Bits.{bit_or_disjoint}
use cobalt_rs.Sequence.{u32_from_bytes}

joined :
    (b0 b1 b2 b3 : ℕ)
    → b1 < 256
    → b2 < 256
    → b3 < 256
    → u32_from_bytes b0 b1 b2 b3 ≡ ((b0 * 256 + b1) * 256 + b2) * 256 + b3
unfolding u32_from_bytes
joined b0 b1 b2 b3 h1 h2 h3 =
    let top : bit_or (b0 * 2 ^ 24) (b1 * 2 ^ 16) ≡ (b0 * 256 + b1) * 2 ^ 16 =
      bit_or_disjoint 24 b0 (b1 * 2 ^ 16) (omega arith) ∙ omega arith in
    let mid : bit_or ((b0 * 256 + b1) * 2 ^ 16) (b2 * 2 ^ 8)
        ≡ ((b0 * 256 + b1) * 256 + b2) * 2 ^ 8 =
      bit_or_disjoint 16 (b0 * 256 + b1) (b2 * 2 ^ 8) (omega arith) ∙ omega arith in
    rw (top, mid) (bit_or_disjoint 8 ((b0 * 256 + b1) * 256 + b2) b3 h3 ∙ omega arith)

-- The four bytes that are written for a `u32` are read as that number.
pub u32_from_bytes_lem :
    (x : ℕ)
    → x < 2 ^ 32
    → u32_from_bytes (x / 2 ^ 24 % 256) (x / 2 ^ 16 % 256) (x / 2 ^ 8 % 256) (x % 256) ≡ x
u32_from_bytes_lem x h =
    joined (x / 2 ^ 24 % 256) (x / 2 ^ 16 % 256) (x / 2 ^ 8 % 256) (x % 256) (omega arith)
      (omega arith) (omega arith)
    ∙ omega arith

pub u32_from_bytes-lt :
    (b0 b1 b2 b3 : ℕ)
    → b0 < 256
    → b1 < 256
    → b2 < 256
    → b3 < 256
    → u32_from_bytes b0 b1 b2 b3 < 2 ^ 32
u32_from_bytes-lt b0 b1 b2 b3 h0 h1 h2 h3 = omega (arith, joined b0 b1 b2 b3 h1 h2 h3)
