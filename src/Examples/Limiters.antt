-- ===== src/Examples/Limiters.antt =====
-- Runs of src/shared/binary_rate_limiter.rs.
use cobalt_rs.Common.{
  ℕ, ◌+◌, ◌%◌, ◌*◌, ◌≤◌, ◌≡◌, refl, List, [], ◌∷◌, ◌++◌, true, false, ◌==◌, length, arith,
}
use cobalt_rs.Traits.{Clock}
use cobalt_rs.BinaryRateLimiter.{BinaryRateLimiter, new, update, congested, should_send, time_since}
use cobalt_rs.BinaryRateLimiter.Delays.{IsValid, update-IsValid, update_all, tick-update_all}
use cobalt_rs.BinaryRateLimiter.Modes.{update_all_stays_bad}
use cobalt_rs.BinaryRateLimiter.Recovery.{update_all_recovers}
use cobalt_rs.Examples.Values.{thousandths, config}

-- At `n` milliseconds.
abbrev at : ℕ → Clock
at n = λ i. n * 1000000

abbrev fresh : BinaryRateLimiter
fresh = new thousandths config (at 0)

-- After a round trip of 300 milliseconds.
abbrev slow : BinaryRateLimiter
slow = update fresh 300 (at 50)

slow_delay : slow.delay_until_good_mode ≡ 2000
unfolding new update
slow_delay = refl

third : fresh.max_tick ≡ 3
unfolding new
third = refl

abbrev fresh-IsValid : IsValid fresh
unfolding new
fresh-IsValid = record {
  delay_min = omega arith;
  delay_max = omega arith;
  tick_lt = omega arith;
  max_tick_lt = omega arith;
}

update-IsValid_example :
    IsValid (update fresh 300 (at 50))
    × (fresh.delay_until_good_mode ≤ (update fresh 300 (at 50)).delay_until_good_mode)
update-IsValid_example = update-IsValid fresh 300 (at 50) fresh-IsValid

abbrev measurements : List (ℕ × Clock)
measurements = (20, at 100) ∷ (20, at 700) ∷ (400, at 900) ∷ (20, at 2000) ∷ []

update_all_stays_bad_example : congested (update_all measurements slow) ≡ true
unfolding new update congested
update_all_stays_bad_example = update_all_stays_bad measurements slow refl (
  (omega arith, omega arith),
  ((omega arith, omega arith), ((omega arith, omega arith), ((omega arith, omega arith), tt))),
)

update_all_recovers_example :
    congested (update_all (((20, at 100) ∷ []) ++ (20, at 2500) ∷ (20, at 2600) ∷ []) slow) ≡ false
unfolding new update time_since
update_all_recovers_example =
    update_all_recovers ((20, at 100) ∷ []) ((20, at 2600) ∷ []) 20 (at 2500) slow
      (omega arith, (omega arith, (omega arith, tt))) (omega arith)

tick-update_all_example :
    ((update_all measurements fresh).tick ≡ (fresh.tick + length measurements) % fresh.max_tick)
    × (congested (update_all measurements fresh) ≡ true
        → should_send (update_all measurements fresh)
          ≡ ((fresh.tick + length measurements) % fresh.max_tick == 0))
tick-update_all_example = tick-update_all measurements fresh fresh-IsValid
