-- ===== src/BinaryRateLimiter/Recovery.antt =====
-- src/shared/binary_rate_limiter.rs: how the limiter gets back to good mode.
use cobalt_rs.Common.{
  ℕ, ◌+◌, ◌%◌, ◌^◌, ◌≤◌, ◌<◌, ◌≡◌, ◌∙◌, refl, List, [], ◌∷◌, ◌++◌, All, true, false, arith,
  Bool-cases, inl, inr, ltb, leb,
}
use cobalt_rs.Traits.{Clock}
use cobalt_rs.BinaryRateLimiter.{
  BinaryRateLimiter, Mode, good, bad, conditions, change_mode, step_tick, update, congested,
  time_since, is_bad,
}
use cobalt_rs.BinaryRateLimiter.Delays.{update_all}
use cobalt_rs.BinaryRateLimiter.Modes.{congested-update}

-- What a good measurement leaves as it is, in bad mode the delay as well.
record Kept (m : Mode) (r r' : BinaryRateLimiter) : Type 0 where
  same_threshold : r'.rtt_threshold ≡ r.rtt_threshold
  same_bad_time : r'.last_bad_time ≡ r.last_bad_time
  same_delay : is_bad m ≡ true → r'.delay_until_good_mode ≡ r.delay_until_good_mode

change_mode-Kept :
    (m : Mode) (clock : Clock) (r : BinaryRateLimiter) → Kept m r (change_mode m good clock r)
unfolding change_mode
change_mode-Kept good clock r = elim (Bool-cases (leb 10000 r.good_time_duration)) [
  | inl t ↦ rw t (record { same_threshold = refl; same_bad_time = refl; same_delay = λ h. cc })
  | inr t ↦ rw t (record { same_threshold = refl; same_bad_time = refl; same_delay = λ h. refl })
]
change_mode-Kept bad clock r =
    elim (Bool-cases (ltb r.delay_until_good_mode (time_since (clock 2) r.last_bad_time))) [
      | inl t ↦
          rw t (record { same_threshold = refl; same_bad_time = refl; same_delay = λ h. refl })
      | inr t ↦
          rw t (record { same_threshold = refl; same_bad_time = refl; same_delay = λ h. refl })
    ]

update-Kept :
    (r : BinaryRateLimiter) (rtt : ℕ) (clock : Clock)
    → rtt ≤ r.rtt_threshold
    → Kept r.mode r (update r rtt clock)
unfolding update conditions step_tick
update-Kept r rtt clock h =
    let fast : leb rtt r.rtt_threshold ≡ true = ground arith in
    let kept = change_mode-Kept r.mode clock (record r {
      good_time_duration = (r.good_time_duration + time_since (clock 0) r.last_good_time) % 2 ^ 64;
      last_good_time = clock 1;
    }) in
    rw fast (record {
      same_threshold = kept.same_threshold;
      same_bad_time = kept.same_bad_time;
      same_delay = kept.same_delay;
    })

good_stays :
    (ms : List (ℕ × Clock)) (threshold : ℕ) (r : BinaryRateLimiter)
    → r.rtt_threshold ≡ threshold
    → All (λ m. m.0 ≤ threshold) ms
    → congested r ≡ false
    → congested (update_all ms r) ≡ false
good_stays [] threshold r same fast h = h
good_stays ((rtt, clock) ∷ ms) threshold r same fast h =
    let quick : rtt ≤ r.rtt_threshold = omega (arith, same, fast.0) in
    let no : ltb r.rtt_threshold rtt ≡ false = ground arith in
    good_stays ms threshold (update r rtt clock)
      ((update-Kept r rtt clock quick).same_threshold ∙ same) fast.1
      (congested-update r rtt clock ∙ rw (h, no) refl)

-- A limiter whose good measurements include one that was taken longer than the delay after the last bad
-- one is in good mode after all of them.
pub update_all_recovers :
    (earlier later : List (ℕ × Clock)) (rtt : ℕ) (clock : Clock) (r : BinaryRateLimiter)
    → All (λ m. m.0 ≤ r.rtt_threshold) (earlier ++ (rtt, clock) ∷ later)
    → r.delay_until_good_mode < time_since (clock 2) r.last_bad_time
    → congested (update_all (earlier ++ (rtt, clock) ∷ later) r) ≡ false
unfolding congested
update_all_recovers earlier later rtt clock r fast late =
    recovers earlier r r.rtt_threshold refl fast late
  where
    recovers :
        (earlier : List (ℕ × Clock)) (r : BinaryRateLimiter) (threshold : ℕ)
        → r.rtt_threshold ≡ threshold
        → All (λ m. m.0 ≤ threshold) (earlier ++ (rtt, clock) ∷ later)
        → r.delay_until_good_mode < time_since (clock 2) r.last_bad_time
        → congested (update_all (earlier ++ (rtt, clock) ∷ later) r) ≡ false
    recovers [] r threshold same fast late =
        let quick : rtt ≤ r.rtt_threshold = omega (arith, same, fast.0) in
        good_stays later threshold (update r rtt clock)
          ((update-Kept r rtt clock quick).same_threshold ∙ same) fast.1
          (congested-update r rtt clock ∙ elim (Bool-cases (congested r)) [
            | inl t ↦
                let yes : leb rtt r.rtt_threshold ≡ true = ground arith in
                let over : leb (time_since (clock 2) r.last_bad_time) r.delay_until_good_mode
                    ≡ false =
                  ground arith in
                rw (t, yes, over) refl
            | inr f ↦ let no : ltb r.rtt_threshold rtt ≡ false = ground arith in rw (f, no) refl
          ])
    recovers ((rtt1, clock1) ∷ earlier) r threshold same fast late =
        let quick : rtt1 ≤ r.rtt_threshold = omega (arith, same, fast.0) in
        let kept = update-Kept r rtt1 clock1 quick in
        elim (Bool-cases (congested r)) [
          | inl t ↦
              recovers earlier (update r rtt1 clock1) threshold (kept.same_threshold ∙ same) fast.1
                (rw (kept.same_delay t, kept.same_bad_time) late)
          | inr f ↦
              good_stays ((rtt1, clock1) ∷ earlier ++ (rtt, clock) ∷ later) threshold r same fast f
        ]
