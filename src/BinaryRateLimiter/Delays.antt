-- ===== src/BinaryRateLimiter/Delays.antt =====
-- The delay until good mode, and the tick that thins out the packets in bad mode.
use cobalt_rs.Common.{
  ℕ, ◌+◌, ◌%◌, ◌^◌, ◌≤◌, ◌<◌, ◌≡◌, ◌∙◌, ap, sym, refl, true, ==_iff, List, [], ◌∷◌, length, arith,
  Bool-cases, inl, inr, ltb, leb, ◌==◌, if◌then◌else◌,
}
use native.Mathlib.Nat.{mod_self, mod-eq_of_lt, mod-add-mod}
use cobalt_rs.Traits.{Clock}
use cobalt_rs.BinaryRateLimiter.{
  BinaryRateLimiter, Mode, good, bad, conditions, change_mode, step_tick, update, time_since,
  congested, should_send,
}

-- The delay is between one second and a minute, and the tick is below its bound.
pub record IsValid (r : BinaryRateLimiter) : Type 0 where
  pub delay_min : 1000 ≤ r.delay_until_good_mode
  pub delay_max : r.delay_until_good_mode ≤ 60000
  pub tick_lt : r.tick < r.max_tick
  pub max_tick_lt : r.max_tick < 2 ^ 32

conditions_lem :
    (rtt : ℕ) (clock : Clock) (r : BinaryRateLimiter)
    → ((conditions rtt clock r).1.delay_until_good_mode ≡ r.delay_until_good_mode)
      × ((conditions rtt clock r).1.tick ≡ r.tick)
      × ((conditions rtt clock r).1.max_tick ≡ r.max_tick)
unfolding conditions
conditions_lem rtt clock r = elim (Bool-cases (leb rtt r.rtt_threshold)) [
  | inl t ↦ rw t (refl, refl, refl)
  | inr t ↦ rw t (refl, refl, refl)
]

change_mode_tick :
    (mode seen : Mode) (clock : Clock) (r : BinaryRateLimiter)
    → ((change_mode mode seen clock r).tick ≡ r.tick)
      × ((change_mode mode seen clock r).max_tick ≡ r.max_tick)
unfolding change_mode
change_mode_tick good bad clock r =
    elim (Bool-cases (ltb (time_since (clock 2) r.last_bad_time) 10000)) [
      | inl t ↦ rw t (refl, refl)
      | inr t ↦ rw t (refl, refl)
    ]
change_mode_tick good good clock r = elim (Bool-cases (leb 10000 r.good_time_duration)) [
  | inl t ↦ rw t (refl, refl)
  | inr t ↦ rw t (refl, refl)
]
change_mode_tick bad seen clock r =
    elim (Bool-cases (ltb r.delay_until_good_mode (time_since (clock 2) r.last_bad_time))) [
      | inl t ↦ rw t (refl, refl)
      | inr t ↦ rw t (refl, refl)
    ]

-- A change of the mode keeps the delay in its range, and never shortens it.
change_mode_delay :
    (mode seen : Mode) (clock : Clock) (r : BinaryRateLimiter)
    → 1000 ≤ r.delay_until_good_mode
    → r.delay_until_good_mode ≤ 60000
    → (r.delay_until_good_mode ≤ (change_mode mode seen clock r).delay_until_good_mode)
      × ((change_mode mode seen clock r).delay_until_good_mode ≤ 60000)
unfolding change_mode
change_mode_delay good bad clock r lo hi =
    elim (Bool-cases (ltb (time_since (clock 2) r.last_bad_time) 10000)) [
      | inl t ↦ rw t (ground arith, ground arith)
      | inr t ↦ rw t (omega arith, hi)
    ]
change_mode_delay good good clock r lo hi = elim (Bool-cases (leb 10000 r.good_time_duration)) [
  | inl t ↦ rw t (ground arith, ground arith)
  | inr t ↦ rw t (omega arith, hi)
]
change_mode_delay bad seen clock r lo hi =
    elim (Bool-cases (ltb r.delay_until_good_mode (time_since (clock 2) r.last_bad_time))) [
      | inl t ↦ rw t (omega arith, hi)
      | inr t ↦ rw t (omega arith, hi)
    ]

step :
    (tick max : ℕ)
    → tick < max
    → max < 2 ^ 32
    → (if (tick + 1) % 2 ^ 32 == max then 0 else (tick + 1) % 2 ^ 32) < max
step tick max h k = ground arith

step_mod :
    (tick max : ℕ)
    → tick < max
    → max < 2 ^ 32
    → (if (tick + 1) % 2 ^ 32 == max then 0 else (tick + 1) % 2 ^ 32) ≡ (tick + 1) % max
step_mod tick max h k = elim (Bool-cases (tick + 1 == max)) [
  | inl t ↦
      let e : tick + 1 ≡ max = (==_iff _ _).0 t in
      let small : (tick + 1) % 2 ^ 32 ≡ tick + 1 = omega arith in
      rw (small, t) (sym (ap (λ x. x % max) e ∙ mod_self max))
  | inr t ↦
      let small : (tick + 1) % 2 ^ 32 ≡ tick + 1 = omega arith in
      let less : tick + 1 < max = ground arith in rw (small, t) (sym (mod-eq_of_lt less))
]

-- Whatever is measured, the delay stays between 1000 and 60000 milliseconds and does not get
-- shorter, and the tick stays below its bound.
pub update-IsValid :
    (r : BinaryRateLimiter) (rtt : ℕ) (clock : Clock)
    → IsValid r
    → IsValid (update r rtt clock)
      × (r.delay_until_good_mode ≤ (update r rtt clock).delay_until_good_mode)
unfolding update step_tick
update-IsValid r rtt clock v =
    let (d, t, m) = conditions_lem rtt clock r in
    let (lo, hi) =
      change_mode_delay r'.mode seen clock r' (omega (arith, d, v.delay_min))
        (omega (arith, d, v.delay_max)) in
    let (t', m') = change_mode_tick r'.mode seen clock r' in
    (
      record {
        delay_min = omega (arith, d, lo, v.delay_min);
        delay_max = hi;
        tick_lt =
            step _ _ (omega (arith, t, t', m, m', v.tick_lt)) (omega (arith, m, m', v.max_tick_lt));
        max_tick_lt = omega (arith, m, m', v.max_tick_lt);
      },
      omega (arith, d, lo),
    )
  where
    seen : Mode
    seen = (conditions rtt clock r).0

    r' : BinaryRateLimiter
    r' = (conditions rtt clock r).1

-- After one measurement the tick is one ahead, around its bound.
tick-update :
    (r : BinaryRateLimiter) (rtt : ℕ) (clock : Clock)
    → IsValid r
    → ((update r rtt clock).tick ≡ (r.tick + 1) % r.max_tick)
      × ((update r rtt clock).max_tick ≡ r.max_tick)
unfolding update step_tick
tick-update r rtt clock v =
    let (d, t, m) = conditions_lem rtt clock r in
    let (t', m') =
      change_mode_tick (conditions rtt clock r).1.mode (conditions rtt clock r).0 clock
        (conditions rtt clock r).1 in
    (rw (t', m', t, m) (step_mod r.tick r.max_tick v.tick_lt v.max_tick_lt), m' ∙ m)

-- A sequence of measurements.
abbrev pub update_all : List (ℕ × Clock) → BinaryRateLimiter → BinaryRateLimiter
update_all [] r = r
update_all ((rtt, clock) ∷ ms) r = update_all ms (update r rtt clock)

-- After any number of measurements the tick has gone round its bound as often as there were
-- measurements, so that in bad mode one of `max_tick` calls sends a packet.
pub tick-update_all :
    (ms : List (ℕ × Clock)) (r : BinaryRateLimiter)
    → IsValid r
    → ((update_all ms r).tick ≡ (r.tick + length ms) % r.max_tick)
      × (congested (update_all ms r) ≡ true
          → should_send (update_all ms r) ≡ ((r.tick + length ms) % r.max_tick == 0))
unfolding should_send
tick-update_all ms r v = (turns ms r v, λ c. rw (c, turns ms r v) refl)
  where
    turns :
        (ms : List (ℕ × Clock)) (r : BinaryRateLimiter)
        → IsValid r
        → (update_all ms r).tick ≡ (r.tick + length ms) % r.max_tick
    turns [] r v = sym (mod-eq_of_lt (omega (arith, v.tick_lt)) ∙ omega arith)
    turns ((rtt, clock) ∷ ms) r v =
        let (t, m) = tick-update r rtt clock v in
        turns ms (update r rtt clock) (update-IsValid r rtt clock v).0
        ∙ rw (t, m)
            (mod-add-mod (r.tick + 1) r.max_tick (length ms)
              ∙ ap (λ x. x % r.max_tick) (omega arith))
