-- ===== src/Connection/Invariant.antt =====
-- What holds of a connection between two calls, and what keeps the calls from panicking.
pub mod Receive
pub mod Accept
pub mod Write
pub mod Update
pub mod Send
use cobalt_rs.Common.{
  ℕ, zero, suc, ◌+◌, ◌-◌, ◌≤◌, ◌<◌, ◌^◌, ◌≡◌, ◌≢◌, refl, sym, ap, subst, ◌∙◌, Bool, true, false,
  List, [], ◌∷◌, ◌++◌, arith, length, All, All-append, All-map, ltb, if◌then◌else◌, Bool-cases, inl,
  inr,
}
use cobalt_rs.Config.{FloatOps}
use cobalt_rs.MessageQueue.{MessageQueue, quota_bytes}
use cobalt_rs.MessageQueue.Sends.{KindsMatch}
use cobalt_rs.MessageQueue.Sending.{QuotasFit}
use cobalt_rs.Connection.{Connection, SentPacketAck, PacketState, unknown, packet_header_size}
use cobalt_rs.Connection.Receive.{pop_back, push_recv_ack, retain_unknown, is_unknown}
use cobalt_rs.Connection.Send.{next_seq_number}

abbrev pub IsSeq : ℕ → Type 0
IsSeq n = n < 256

-- A sent packet has a sequence number in range, and was sent by the time `now`.
abbrev pub SentBy : ℕ → SentPacketAck → Type 0
SentBy now p = (p.seq < 256) × (p.time ≤ now)

-- It waits for its acknowledgement.
abbrev pub Pending : ℕ → SentPacketAck → Type 0
Pending now p = (p.state ≡ unknown) × SentBy now p

abbrev pub waiting : SentPacketAck → ℕ
waiting p = if is_unknown p.state then 1 else 0

module _ {F R M A : Type 0} (ops : FloatOps F) where
  -- The configuration makes sense: packets hold their header, the quotas fit, ticks have a length,
  -- and the id is a `u32`.
  pub record IsConfigured (c : Connection F R M A) : Type 0 where
    pub id_lt : c.random_id < 2 ^ 32
    pub rate : 0 < c.config.send_rate
    pub room : packet_header_size ≤ c.config.packet_max_size
    pub quotas : QuotasFit ops c.message_queue (c.config.packet_max_size - packet_header_size)

module _ {F R M A : Type 0} where
  -- What holds between two calls.
  pub record IsValid (now : ℕ) (c : Connection F R M A) : Type 0 where
    pub local_lt : c.local_seq_number < 256
    pub remote_lt : c.remote_seq_number < 256
    pub received : All IsSeq c.recv_ack_queue
    pub acks_le : length c.recv_ack_queue ≤ 32
    pub sent : All (Pending now) c.sent_ack_queue
    pub kinds : KindsMatch c.message_queue

pub next_seq_number-lt : (n : ℕ) → n < 256 → next_seq_number n < 256
unfolding next_seq_number
next_seq_number-lt n h = ground arith

pop_back-All : (xs : List ℕ) → All IsSeq xs → All IsSeq (pop_back xs)
pop_back-All [] h = tt
pop_back-All (x ∷ []) h = tt
pop_back-All (x ∷ y ∷ xs) h = (h.0, pop_back-All (y ∷ xs) h.1)

length-pop_back : (xs : List ℕ) → length (pop_back xs) ≡ length xs - 1
length-pop_back [] = omega arith
length-pop_back (x ∷ []) = omega arith
length-pop_back (x ∷ y ∷ xs) = omega (arith, length-pop_back (y ∷ xs))

pub push_recv_ack-All :
    (seq : ℕ) (queue : List ℕ) → seq < 256 → All IsSeq queue → All IsSeq (push_recv_ack seq queue)
unfolding push_recv_ack
push_recv_ack-All seq queue h k = elim (Bool-cases (ltb 32 (length (seq ∷ queue)))) [
  | inl t ↦ rw t (pop_back-All (seq ∷ queue) (h, k))
  | inr t ↦ rw t (h, k)
]

pub length-push_recv_ack :
    (seq : ℕ) (queue : List ℕ) → length queue ≤ 32 → length (push_recv_ack seq queue) ≤ 32
unfolding push_recv_ack
length-push_recv_ack seq queue h = elim (Bool-cases (ltb 32 (length (seq ∷ queue)))) [
  | inl t ↦ rw t (omega (arith, length-pop_back (seq ∷ queue)))
  | inr t ↦ rw t (ground arith)
]

is_unknown→eq : (s : PacketState) → is_unknown s ≡ true → s ≡ unknown
is_unknown→eq unknown h = refl
is_unknown→eq PacketState.acked h = cc
is_unknown→eq PacketState.lost h = cc

-- What `retain` keeps is pending.
pub retain_unknown-Pending :
    (now : ℕ) (ps : List SentPacketAck)
    → All (SentBy now) ps
    → All (Pending now) (retain_unknown ps)
unfolding retain_unknown
retain_unknown-Pending now [] h = tt
retain_unknown-Pending now (p ∷ ps) h = elim (Bool-cases (is_unknown p.state)) [
  | inl t ↦ rw t ((is_unknown→eq p.state t, h.0), retain_unknown-Pending now ps h.1)
  | inr t ↦ rw t (retain_unknown-Pending now ps h.1)
]

pub Pending-mono :
    {now later : ℕ} (ps : List SentPacketAck)
    → now ≤ later
    → All (Pending now) ps
    → All (Pending later) ps
Pending-mono {now} {later} ps h =
    All-map {P = Pending now} {Q = Pending later} (λ p k. (k.0, (k.1.0, omega arith))) ps
