-- ===== src/Examples/Tickers.antt =====
-- Runs of src/shared/ticker.rs.
use cobalt_rs.Common.{ℕ, ◌*◌, ◌/◌, ◌≡◌, refl, List, [], ◌∷◌, true, Returns, panic, arith}
use cobalt_rs.Config.{FloatOps, negsuc}
use cobalt_rs.Ticker.{Ticker, end_tick}
use cobalt_rs.Ticker.Balance.{Balanced, end_tick-Balanced}
use cobalt_rs.Ticker.Sequence.{run_ticks, Accounted, run_ticks-Accounted}
use cobalt_rs.Examples.Values.{thousandths}

-- A tick of 33 milliseconds with 5 milliseconds owed.
abbrev late : Ticker ℕ
late = record {
  tick_start = 1000000;
  tick_overflow = 5000000;
  tick_overflow_recovery = true;
  tick_overflow_recovery_rate = 500;
  tick_delay = 33333333;
}

end_tick-Balanced_example :
    Returns (end_tick thousandths 11000000 late) (λ r. Balanced 10000000 late r.0 r.1)
end_tick-Balanced_example =
    end_tick-Balanced thousandths 11000000 late (λ m. (m * 1000 * 500 / 1000 / 1000, refl))
      (omega arith) (omega arith)

-- With a rate below 0 the correction is negative.
abbrev below : FloatOps ℕ
below = record thousandths { to_int = λ a. negsuc 999 }

negative_rate_panics : end_tick below 11000000 late ≡ panic
unfolding end_tick
negative_rate_panics = refl

-- Two ticks, of which the first takes longer than the delay.
abbrev two_ticks : List (ℕ × ℕ)
two_ticks = (1000000, 51000000) ∷ (52000000, 53000000) ∷ []

run_ticks-Accounted_example :
    Returns (run_ticks thousandths two_ticks late) (λ r. Accounted two_ticks late r.0 r.1)
run_ticks-Accounted_example =
    run_ticks-Accounted thousandths two_ticks late (λ m. (m * 1000 * 500 / 1000 / 1000, refl)) refl
      (omega arith) (omega arith)
