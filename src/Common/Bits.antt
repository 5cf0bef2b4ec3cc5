-- ===== src/Common/Bits.antt =====
-- `|`, `&`, `<<` and `>>` as arithmetic on digits.
use Prim.Native.Nat.{
  ℕ, zero, suc, ◌+◌, ◌*◌, ◌/◌, ◌%◌, ◌^◌, ◌≤◌, ◌<◌, min, max, bit_and, bit_or, digits, ◌-◌,
  bit_and-bitwise, bit_or-bitwise,
}
use mathlib.Core.Path.{◌≡◌, refl, sym, ap, ◌∙◌}
use native.Mathlib.Omega.{arith}
use native.Mathlib.Nat.{pow-suc}

-- The fuel of the recursion on digits may be any number from the first argument on.
one_more :
    (z : ℕ → ℕ) (f : ℕ → ℕ → ℕ) (n a b : ℕ) → a ≤ n → digits z f (suc n) a b ≡ digits z f n a b
one_more z f n zero b h = elim n as (λ k. digits z f (suc k) 0 b ≡ digits z f k 0 b) [
  | zero ↦ refl
  | suc k ↦ refl
]
one_more z f zero (suc a) b h = absurd (omega arith)
one_more z f (suc n) (suc a) b h =
    ap (λ t. t * 2 + f (suc a % 2) (b % 2)) (one_more z f n (suc a / 2) (b / 2) (omega arith))

spare_fuel :
    (z : ℕ → ℕ) (f : ℕ → ℕ → ℕ) (extra n m a b : ℕ)
    → a ≤ n
    → m ≡ n + extra
    → digits z f m a b ≡ digits z f n a b
spare_fuel z f zero n m a b h e = ap (λ t. digits z f t a b) (omega arith)
spare_fuel z f (suc extra) n m a b h e =
    ap (λ t. digits z f t a b) {y = suc (n + extra)} (omega arith)
    ∙ one_more z f (n + extra) a b (omega arith)
    ∙ spare_fuel z f extra n (n + extra) a b h refl

tail_fuel :
    (z : ℕ → ℕ) (f : ℕ → ℕ → ℕ) (a b : ℕ)
    → digits z f a (suc a / 2) b ≡ digits z f (suc a / 2) (suc a / 2) b
tail_fuel z f a b =
    spare_fuel z f (a - suc a / 2) (suc a / 2) a (suc a / 2) b (omega arith) (omega arith)

-- What `|` and `&` do to the last digit, and to the digits above it.
pub bit_or-halves : (a b : ℕ) → bit_or a b ≡ bit_or (a / 2) (b / 2) * 2 + max (a % 2) (b % 2)
bit_or-halves zero b = omega (arith, bit_or-bitwise 0 b, bit_or-bitwise 0 (b / 2))
bit_or-halves (suc a) b =
    bit_or-bitwise (suc a) b
    ∙ ap (λ t. t * 2 + max (suc a % 2) (b % 2))
        (tail_fuel (λ y. y) max a (b / 2) ∙ sym (bit_or-bitwise (suc a / 2) (b / 2)))

pub bit_and-halves : (a b : ℕ) → bit_and a b ≡ bit_and (a / 2) (b / 2) * 2 + min (a % 2) (b % 2)
bit_and-halves zero b = omega (arith, bit_and-bitwise 0 b, bit_and-bitwise 0 (b / 2))
bit_and-halves (suc a) b =
    bit_and-bitwise (suc a) b
    ∙ ap (λ t. t * 2 + min (suc a % 2) (b % 2))
        (tail_fuel (λ y. 0) min a (b / 2) ∙ sym (bit_and-bitwise (suc a / 2) (b / 2)))

-- Nothing is joined, or nothing is left: by the number of digits.
no_digits : (bound a : ℕ) → a ≤ bound → (bit_or a 0 ≡ a) × (bit_and a 0 ≡ 0)
no_digits bound zero h = (refl, refl)
no_digits zero (suc a) h = absurd (omega arith)
no_digits (suc bound) (suc a) h =
    let (joined, cut) = no_digits bound (suc a / 2) (omega arith) in
    (omega (arith, bit_or-halves (suc a) 0), omega (arith, bit_and-halves (suc a) 0))

bit_or-zero : (a : ℕ) → bit_or a 0 ≡ a
bit_or-zero a = (no_digits a a (omega arith)).0

bit_and-zero : (a : ℕ) → bit_and a 0 ≡ 0
bit_and-zero a = (no_digits a a (omega arith)).1

double_pow : (a k : ℕ) → a * 2 ^ suc k ≡ a * 2 ^ k * 2
double_pow a k = omega (arith, ap (λ (t : ℕ). a * t) (pow-suc 2 k))

-- `a << k | b` is a sum where `b` fits into the `k` bits that the shift cleared.
pub bit_or_disjoint : (k a b : ℕ) → b < 2 ^ k → bit_or (a * 2 ^ k) b ≡ a * 2 ^ k + b
bit_or_disjoint zero a b h =
    let e : b ≡ 0 = omega arith in rw e (omega (arith, bit_or-zero (a * 1)))
bit_or_disjoint (suc k) a b h = omega (
  arith,
  bit_or-halves (a * 2 ^ suc k) b,
  double_pow a k,
  ap (λ (t : ℕ). bit_or t (b / 2)) (half (a * 2 ^ suc k) (a * 2 ^ k) (double_pow a k)),
  bit_or_disjoint k a (b / 2) (omega (arith, pow-suc 2 k)),
)
  where
    half : (x y : ℕ) → x ≡ y * 2 → x / 2 ≡ y
    half x y e = omega arith

-- The digit of `a` at place `j`.
abbrev pub digit : ℕ → ℕ → ℕ
digit a zero = a % 2
digit a (suc j) = digit (a / 2) j

pub digit-bit_or : (a b j : ℕ) → digit (bit_or a b) j ≡ max (digit a j) (digit b j)
digit-bit_or a b zero = omega (arith, bit_or-halves a b)
digit-bit_or a b (suc j) =
    let e : bit_or a b / 2 ≡ bit_or (a / 2) (b / 2) = omega (arith, bit_or-halves a b) in
    rw e (digit-bit_or (a / 2) (b / 2) j)

pub digit-zero : (j : ℕ) → digit 0 j ≡ 0
digit-zero zero = refl
digit-zero (suc j) = digit-zero j

half_pow : (k : ℕ) → 2 ^ suc k / 2 ≡ 2 ^ k
half_pow k = omega (arith, pow-suc 2 k)

pub digit-pow_self : (j : ℕ) → digit (2 ^ j) j ≡ 1
digit-pow_self zero = refl
digit-pow_self (suc j) = rw (half_pow j) (digit-pow_self j)

pub digit-pow_ne : (i j : ℕ) → (i ≡ j → ⊥) → digit (2 ^ i) j ≡ 0
digit-pow_ne zero zero h = absurd (h refl)
digit-pow_ne zero (suc j) h = digit-zero j
digit-pow_ne (suc i) zero h = omega (arith, pow-suc 2 i)
digit-pow_ne (suc i) (suc j) h = rw (half_pow i) (digit-pow_ne i j (λ e. h (ap suc e)))

-- `a & 1 << j` is the digit of `a` at place `j`, where it stands.
pub bit_and-pow : (a j : ℕ) → bit_and a (2 ^ j) ≡ digit a j * 2 ^ j
bit_and-pow a zero = omega (arith, bit_and-halves a 1, bit_and-zero (a / 2))
bit_and-pow a (suc j) = omega (
  arith,
  bit_and-halves a (2 ^ suc j),
  pow-suc 2 j,
  ap (bit_and (a / 2)) (half_pow j),
  bit_and-pow (a / 2) j,
  double_pow (digit (a / 2) j) j,
)

-- Masks of four ones, digit by digit.
pub low_nibble : (b : ℕ) → bit_and b 0x0F ≡ b % 16
low_nibble b = omega (
  arith,
  bit_and-halves b 15,
  bit_and-halves (b / 2) 7,
  bit_and-halves (b / 2 / 2) 3,
  bit_and-halves (b / 2 / 2 / 2) 1,
  bit_and-zero (b / 2 / 2 / 2 / 2),
)

pub high_nibble : (b : ℕ) → b < 256 → bit_and b 0xF0 ≡ b / 16 * 16
high_nibble b h = omega (
  arith,
  bit_and-halves b 240,
  bit_and-halves (b / 2) 120,
  bit_and-halves (b / 2 / 2) 60,
  bit_and-halves (b / 2 / 2 / 2) 30,
  low_nibble (b / 2 / 2 / 2 / 2),
)

skip_nibble : (b : ℕ) → bit_and b 0x0F00 ≡ bit_and (b / 2 / 2 / 2 / 2) 0xF0 * 16
skip_nibble b = omega (
  arith,
  bit_and-halves b 3840,
  bit_and-halves (b / 2) 1920,
  bit_and-halves (b / 2 / 2) 960,
  bit_and-halves (b / 2 / 2 / 2) 480,
)

pub third_nibble : (b : ℕ) → b < 4096 → bit_and b 0x0F00 ≡ b / 256 * 256
third_nibble b h = omega (arith, skip_nibble b, high_nibble (b / 2 / 2 / 2 / 2) (omega arith))
