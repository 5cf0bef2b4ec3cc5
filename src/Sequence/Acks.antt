-- ===== src/Sequence/Acks.antt =====
-- src/shared/connection.rs: the bitfield of received packets, and its test.
use cobalt_rs.Common.{
  ℕ, zero, suc, ◌+◌, ◌-◌, ◌*◌, ◌/◌, ◌%◌, ◌^◌, ◌≤◌, ◌<◌, ◌≡◌, refl, sym, ap, ◌∙◌, ◌≢◌, Bool, true,
  false, ◌&&◌, ◌||◌, not, List, [], ◌∷◌, ltb, ◌==◌, if◌then◌else◌, bit_and, bit_or, done, contains,
  All, arith, Bool-cases, inl, inr, ==_iff, ==_ne, ltb→lt, done-injective, subst,
}
use cobalt_rs.Common.Bits.{
  digit, digit-bit_or, digit-zero, digit-pow_self, digit-pow_ne, bit_and-pow, bit_or-halves,
}
use native.Mathlib.Nat.{one-le-pow, pow-suc, pow-le-pow_right}
use cobalt_rs.Sequence.{seq_bit_index, seq_was_acked, set_ack_bit, ack_bitfield}

-- How far `seq` lies behind `ack`, less one, around the range of 256.
abbrev pub behind : ℕ → ℕ → ℕ
behind seq ack = (ack + 255 - seq) % 256

pub seq_bit_index_lem :
    (seq ack : ℕ)
    → seq < 256
    → ack < 256
    → seq ≢ ack
    → seq_bit_index seq ack ≡ done (behind seq ack)
unfolding seq_bit_index
seq_bit_index_lem seq ack h k ne = ground arith

mark : ℕ → ℕ → ℕ → ℕ
mark seq remote bits =
    if seq == remote
    then bits
    else if ltb (behind seq remote) 32
    then bit_or bits (2 ^ behind seq remote)
    else bits

set_ack_bit_lem :
    (seq remote bits : ℕ)
    → seq < 256
    → remote < 256
    → set_ack_bit seq remote bits ≡ done (mark seq remote bits)
unfolding set_ack_bit mark
set_ack_bit_lem seq remote bits h k = elim (Bool-cases (seq == remote)) [
  | inl e ↦ rw e
  | inr e ↦ rw (e, seq_bit_index_lem seq remote h k (ground arith))
]

digit-le : (a j : ℕ) → digit a j ≤ 1
digit-le a zero = omega arith
digit-le a (suc j) = digit-le (a / 2) j

-- Setting the bit `i` gives it the digit 1 and changes no other.
digit-set : (bits i j : ℕ) → digit (bit_or bits (2 ^ i)) j ≡ (if j == i then 1 else digit bits j)
digit-set bits i j = elim (Bool-cases (j == i)) [
  | inl e ↦
      let same : j ≡ i = (==_iff _ _).0 e in
      rw (e, digit-bit_or bits (2 ^ i) j)
        (omega (arith, digit-le bits j, ap (digit (2 ^ i)) same, digit-pow_self i))
  | inr e ↦ rw (e, digit-bit_or bits (2 ^ i) j, digit-pow_ne i j (λ t. ground arith)) (omega arith)
]

behind-injective :
    (s seq remote : ℕ)
    → s < 256
    → seq < 256
    → remote < 256
    → (behind s remote == behind seq remote) ≡ (s == seq)
behind-injective s seq remote hs hq hr = ground arith

-- The bit of `s` after `seq` was marked.
digit-mark :
    (s seq remote bits : ℕ)
    → s < 256
    → seq < 256
    → remote < 256
    → s ≢ remote
    → behind s remote < 32
    → digit (mark seq remote bits) (behind s remote)
      ≡ (if s == seq then 1 else digit bits (behind s remote))
unfolding mark
digit-mark s seq remote bits hs hq hr ne near = elim (Bool-cases (seq == remote)) [
  | inl e ↦ rw (e, ==_ne s seq (ground arith))
  | inr e ↦ elim (Bool-cases (ltb (behind seq remote) 32)) [
    | inl n ↦
        rw (e, n)
          (digit-set bits (behind seq remote) (behind s remote)
            ∙ ap (λ t. if t then 1 else digit bits (behind s remote))
                (behind-injective s seq remote hs hq hr))
    | inr n ↦ rw (e, n, ==_ne s seq (ground arith))
  ]
]

-- Bit by bit, the loop marks the sequence numbers of the list.
ack_bitfield_digits :
    (seqs : List ℕ) (remote bits : ℕ)
    → All (λ s. s < 256) seqs
    → remote < 256
    → (bits' : ℕ) × (ack_bitfield seqs remote bits ≡ done bits')
      × ((s : ℕ)
          → s < 256
          → s ≢ remote
          → behind s remote < 32
          → digit bits' (behind s remote)
            ≡ (if contains s seqs then 1 else digit bits (behind s remote)))
unfolding ack_bitfield
ack_bitfield_digits [] remote bits all hr = (bits, refl, λ s h ne near. refl)
ack_bitfield_digits (seq ∷ seqs) remote bits all hr =
    let (bits', run, digits) = ack_bitfield_digits seqs remote (mark seq remote bits) all.1 hr in
    (
      bits',
      rw (set_ack_bit_lem seq remote bits all.0 hr) run,
      λ s h ne near.
          digits s h ne near ∙ ground (arith, digit-mark s seq remote bits h all.0 hr ne near),
    )

bit_test :
    (bits j : ℕ) (c : Bool)
    → digit bits j ≡ (if c then 1 else 0)
    → not (bit_and bits (2 ^ j) == 0) ≡ c
bit_test bits j true h = rw (
    ==_ne (bit_and bits (2 ^ j)) 0
      (omega (arith, bit_and-pow bits j, ap (λ (t : ℕ). t * 2 ^ j) h, one-le-pow j 2)))
bit_test bits j false h = rw (
    (==_iff (bit_and bits (2 ^ j)) 0).1
      (omega (arith, bit_and-pow bits j, ap (λ (t : ℕ). t * 2 ^ j) h)))

and_true : (c : Bool) → (c && true) ≡ c
and_true c = ground arith

and_false : (c : Bool) → (c && false) ≡ false
and_false c = ground arith

bit_or-lt : (k a b : ℕ) → a < 2 ^ k → b < 2 ^ k → bit_or a b < 2 ^ k
bit_or-lt zero a b h k =
    let ea : a ≡ 0 = omega arith in let eb : b ≡ 0 = omega arith in rw (ea, eb) (omega arith)
bit_or-lt (suc n) a b h k = omega (
  arith,
  bit_or-halves a b,
  pow-suc 2 n,
  bit_or-lt n (a / 2) (b / 2) (omega (arith, pow-suc 2 n)) (omega (arith, pow-suc 2 n)),
)

mark-lt : (seq remote bits : ℕ) → bits < 2 ^ 32 → mark seq remote bits < 2 ^ 32
unfolding mark
mark-lt seq remote bits h = elim (Bool-cases (seq == remote)) [
  | inl e ↦ rw e h
  | inr e ↦ elim (Bool-cases (ltb (behind seq remote) 32)) [
    | inl n ↦
        let near : behind seq remote ≤ 31 = omega (arith, ltb→lt _ _ n) in
        rw (e, n)
          (bit_or-lt 32 bits (2 ^ behind seq remote) h (
            omega (
              arith,
              pow-le-pow_right {n = 2} (omega arith) {i = behind seq remote} {j = 31} near,
            )))
    | inr n ↦ rw (e, n) h
  ]
]

-- The bitfield fits a `u32`.
pub ack_bitfield-lt :
    (seqs : List ℕ) (remote bits bits' : ℕ)
    → All (λ s. s < 256) seqs
    → remote < 256
    → bits < 2 ^ 32
    → ack_bitfield seqs remote bits ≡ done bits'
    → bits' < 2 ^ 32
unfolding ack_bitfield
ack_bitfield-lt [] remote bits bits' all hr h e = subst (λ t. t < 2 ^ 32) (done-injective e) h
ack_bitfield-lt (seq ∷ seqs) remote bits bits' all hr h e =
    ack_bitfield-lt seqs remote (mark seq remote bits) bits' all.1 hr (mark-lt seq remote bits h)
      (rw (set_ack_bit_lem seq remote bits all.0 hr) at e)

-- A packet says of a sequence number that it was received exactly where the number is the most
-- recent one of the peer, or is in the queue of received numbers and at most 32 behind that one.
pub seq_was_acked-ack_bitfield :
    (received : List ℕ) (remote seq : ℕ)
    → All (λ s. s < 256) received
    → remote < 256
    → seq < 256
    → (bits : ℕ) × (ack_bitfield received remote 0 ≡ done bits)
      × (seq_was_acked seq remote bits
          ≡ done (seq == remote || (contains seq received && ltb (behind seq remote) 32)))
unfolding seq_was_acked
seq_was_acked-ack_bitfield received remote seq all hr hs =
    let (bits, run, digits) = ack_bitfield_digits received remote 0 all hr in
    (
      bits,
      run,
      elim (Bool-cases (seq == remote)) [
        | inl e ↦ rw e
        | inr e ↦
            rw (e, seq_bit_index_lem seq remote hs hr (ground arith))
              (ap done (acked bits (digits seq hs (ground arith))))
      ],
    )
  where
    acked :
        (bits : ℕ)
        → (behind seq remote < 32
            → digit bits (behind seq remote)
              ≡ (if contains seq received then 1 else digit 0 (behind seq remote)))
        → (ltb (behind seq remote) 32 && not (bit_and bits (2 ^ behind seq remote) == 0))
          ≡ (contains seq received && ltb (behind seq remote) 32)
    acked bits h = elim (Bool-cases (ltb (behind seq remote) 32)) [
      | inl e ↦
          rw
            (
              e,
              bit_test bits (behind seq remote) (contains seq received) (
                  h (ltb→lt _ _ e)
                  ∙ ap (λ t. if contains seq received then 1 else t)
                      (digit-zero (behind seq remote))),
            )
            (sym (and_true (contains seq received)))
      | inr e ↦ rw e (sym (and_false (contains seq received)))
    ]
