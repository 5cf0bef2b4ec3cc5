-- ===== src/BinaryRateLimiter/Modes.antt =====
-- The two modes over a sequence of measurements.
use cobalt_rs.Common.{
  ℕ, ◌+◌, ◌-◌, ◌*◌, ◌≤◌, ◌≡◌, ◌∙◌, ap, refl, List, [], ◌∷◌, All, true, false, arith, Bool-cases,
  inl, inr, ltb, leb, if◌then◌else◌,
}
use cobalt_rs.Traits.{Clock}
use cobalt_rs.BinaryRateLimiter.{
  BinaryRateLimiter, Mode, good, bad, conditions, change_mode, step_tick, update, congested,
  time_since, millis_from_duration, is_bad,
}
use cobalt_rs.BinaryRateLimiter.Delays.{update_all}

-- A measurement that was taken from `since` on, and at most `delay` milliseconds later.
abbrev pub Within : ℕ → ℕ → ℕ × Clock → Type 0
Within since delay m = (since ≤ m.1 0) × (m.1 2 ≤ since + delay * 1000000)

-- Within the delay the bad mode stays, with a last bad time that is not earlier.
record StaysBad (since delay : ℕ) (r : BinaryRateLimiter) : Type 0 where
  bad_mode : r.mode ≡ bad
  bad_since : since ≤ r.last_bad_time
  same_delay : r.delay_until_good_mode ≡ delay

millis-le : (d delay : ℕ) → d ≤ delay * 1000000 → millis_from_duration d ≤ delay
unfolding millis_from_duration
millis-le d delay h = omega arith

conditions-StaysBad :
    (since delay rtt : ℕ) (clock : Clock) (r : BinaryRateLimiter)
    → since ≤ clock 0
    → StaysBad since delay r
    → StaysBad since delay (conditions rtt clock r).1
unfolding conditions
conditions-StaysBad since delay rtt clock r h s = elim (Bool-cases (leb rtt r.rtt_threshold)) [
  | inl t ↦
      rw t (record { bad_mode = s.bad_mode; bad_since = s.bad_since; same_delay = s.same_delay })
  | inr t ↦ rw t (record { bad_mode = s.bad_mode; bad_since = h; same_delay = s.same_delay })
]

change_mode-StaysBad :
    (since delay : ℕ) (seen : Mode) (clock : Clock) (r : BinaryRateLimiter)
    → clock 2 ≤ since + delay * 1000000
    → StaysBad since delay r
    → change_mode bad seen clock r ≡ r
unfolding change_mode time_since
change_mode-StaysBad since delay seen clock r h s =
    let short : millis_from_duration (clock 2 - r.last_bad_time) ≤ delay =
      millis-le _ delay (omega (arith, s.bad_since)) in
    let no : ltb r.delay_until_good_mode (millis_from_duration (clock 2 - r.last_bad_time))
        ≡ false =
      ground (arith, short, s.same_delay) in
    rw no

update-StaysBad :
    (since delay rtt : ℕ) (clock : Clock) (r : BinaryRateLimiter)
    → Within since delay (rtt, clock)
    → StaysBad since delay r
    → StaysBad since delay (update r rtt clock)
unfolding update step_tick
update-StaysBad since delay rtt clock r w s =
    let s' = conditions-StaysBad since delay rtt clock r w.0 s in
    rw
      (
        s'.bad_mode,
        change_mode-StaysBad since delay (conditions rtt clock r).0 clock (conditions rtt clock r).1
            w.1 s',
      )
      (record { bad_mode = s'.bad_mode; bad_since = s'.bad_since; same_delay = s'.same_delay })

stays :
    (ms : List (ℕ × Clock)) (since delay : ℕ) (r : BinaryRateLimiter)
    → All (Within since delay) ms
    → StaysBad since delay r
    → StaysBad since delay (update_all ms r)
stays [] since delay r w s = s
stays ((rtt, clock) ∷ ms) since delay r w s =
    stays ms since delay (update r rtt clock) w.1 (update-StaysBad since delay rtt clock r w.0 s)

-- A limiter in bad mode stays there for any sequence of measurements, good or bad, within the
-- delay after the last bad one.
pub update_all_stays_bad :
    (ms : List (ℕ × Clock)) (r : BinaryRateLimiter)
    → congested r ≡ true
    → All (Within r.last_bad_time r.delay_until_good_mode) ms
    → congested (update_all ms r) ≡ true
unfolding congested
update_all_stays_bad ms r h w =
    congested-bad
      (stays ms r.last_bad_time r.delay_until_good_mode r w (record {
        bad_mode = bad_of r.mode h;
        bad_since = omega arith;
        same_delay = refl;
      })).bad_mode
  where
    bad_of : (m : Mode) → is_bad m ≡ true → m ≡ bad
    bad_of good k = cc
    bad_of bad k = refl

    congested-bad : (update_all ms r).mode ≡ bad → congested (update_all ms r) ≡ true
    congested-bad e = ap is_bad e

change_mode_lem :
    (m seen : Mode) (clock : Clock) (r : BinaryRateLimiter)
    → r.mode ≡ m
    → is_bad (change_mode m seen clock r).mode ≡ (
        if is_bad m
        then leb (time_since (clock 2) r.last_bad_time) r.delay_until_good_mode
        else is_bad seen)
unfolding change_mode
change_mode_lem good bad clock r h =
    elim (Bool-cases (ltb (time_since (clock 2) r.last_bad_time) 10000)) [
      | inl t ↦ rw t
      | inr t ↦ rw t
    ]
change_mode_lem good good clock r h = elim (Bool-cases (leb 10000 r.good_time_duration)) [
  | inl t ↦ rw t (ap is_bad h)
  | inr t ↦ rw t (ap is_bad h)
]
change_mode_lem bad seen clock r h =
    elim (Bool-cases (ltb r.delay_until_good_mode (time_since (clock 2) r.last_bad_time))) [
      | inl t ↦ rw t (ground arith)
      | inr t ↦ rw t (ap is_bad h ∙ ground arith)
    ]

measured :
    (rtt : ℕ) (clock : Clock) (r : BinaryRateLimiter)
    → (if is_bad (conditions rtt clock r).1.mode
        then leb
            (time_since (clock 2) (conditions rtt clock r).1.last_bad_time)
            (conditions rtt clock r).1.delay_until_good_mode
        else is_bad (conditions rtt clock r).0)
      ≡ (if is_bad r.mode
          then leb
              (time_since (clock 2) (if leb rtt r.rtt_threshold then r.last_bad_time else clock 0))
              r.delay_until_good_mode
          else ltb r.rtt_threshold rtt)
unfolding conditions
measured rtt clock r = elim (Bool-cases (leb rtt r.rtt_threshold)) [
  | inl t ↦ let no : ltb r.rtt_threshold rtt ≡ false = ground arith in rw (t, no) refl
  | inr t ↦ let yes : ltb r.rtt_threshold rtt ≡ true = ground arith in rw (t, yes) refl
]

-- After a measurement the limiter is in bad mode where it was in good mode and the round trip took
-- longer than the threshold, or where it was in bad mode and the delay has not passed since the
-- last bad measurement, which can be this one.
pub congested-update :
    (r : BinaryRateLimiter) (rtt : ℕ) (clock : Clock)
    → congested (update r rtt clock) ≡ (
        if congested r
        then leb
            (time_since (clock 2) (if leb rtt r.rtt_threshold then r.last_bad_time else clock 0))
            r.delay_until_good_mode
        else ltb r.rtt_threshold rtt)
unfolding update congested step_tick
congested-update r rtt clock = change_mode_lem r'.mode seen clock r' refl ∙ measured rtt clock r
  where
    seen : Mode
    seen = (conditions rtt clock r).0

    r' : BinaryRateLimiter
    r' = (conditions rtt clock r).1
