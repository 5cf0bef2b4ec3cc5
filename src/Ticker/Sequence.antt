-- ===== src/Ticker/Sequence.antt =====
-- src/shared/ticker.rs: the time of many ticks.
use cobalt_rs.Common.{
  ℕ, suc, ◌+◌, ◌-◌, ◌*◌, ◌^◌, ◌≤◌, ◌<◌, ◌≡◌, sym, ap, subst, ◌∙◌, List, [], ◌∷◌, true,
  if◌then◌else◌, length, max, Outcome, done, ◌>>=◌, Returns, given, after, arith,
}
use cobalt_rs.Config.{FloatOps}
use cobalt_rs.Ticker.{Ticker, begin_tick, end_tick}
use cobalt_rs.Ticker.Balance.{NonNegative, end_tick-Balanced}

-- The time between the begins and the ends.
abbrev pub time_taken : List (ℕ × ℕ) → ℕ
time_taken [] = 0
time_taken ((start, end) ∷ ticks) = (end - start) + time_taken ticks

mul_suc : (n d : ℕ) → suc n * d ≡ d + n * d
mul_suc n d = omega arith

module _ {F : Type 0} where
  -- Ticks that begin and end at these times, and how long they sleep together.
  abbrev pub run_ticks : FloatOps F → List (ℕ × ℕ) → Ticker F → Outcome (Ticker F × ℕ)
  run_ticks o [] t = done (t, 0)
  run_ticks o ((start, end) ∷ ticks) t = do
    (t1, sleep) ← end_tick o end (begin_tick start t)
    (t2, slept) ← run_ticks o ticks t1
    done (t2, sleep + slept)

  -- What ticks together take, sleep and owe.
  pub record Accounted (ticks : List (ℕ × ℕ)) (t t' : Ticker F) (slept : ℕ) : Type 0 where
    pub total :
        time_taken ticks + slept + t.tick_overflow ≡ length ticks * t.tick_delay + t'.tick_overflow
    pub slept_le : slept ≤ length ticks * t.tick_delay

  -- Any number of ticks with the recovery end without a panic. The time that they take and sleep
  -- together is their number times the delay, but for the change of what is owed: over time the send
  -- rate is kept, however long single ticks take. The correction of the recovery is not negative, the
  -- delay is below 2^32 nanoseconds, and what is owed at first and the time taken are below 2^63.
  pub run_ticks-Accounted :
      (o : FloatOps F) (ticks : List (ℕ × ℕ)) (t : Ticker F)
      → NonNegative o t.tick_overflow_recovery_rate
      → t.tick_overflow_recovery ≡ true
      → t.tick_delay < 2 ^ 32
      → t.tick_overflow + time_taken ticks < 2 ^ 63
      → Returns (run_ticks o ticks t) (λ r. Accounted ticks t r.0 r.1)
  unfolding begin_tick
  run_ticks-Accounted o [] t nonneg on delay small =
      given (record { total = omega arith; slept_le = omega arith })
  run_ticks-Accounted o ((start, end) ∷ ticks) t nonneg on delay small =
      after (end_tick-Balanced o end (begin_tick start t) nonneg (omega arith) delay) (λ r b.
        let balance : (end - start) + r.1 + t.tick_overflow ≡ t.tick_delay + r.0.tick_overflow =
          b.balance
          ∙ ap
              (λ c.
                if c
                then t.tick_delay + r.0.tick_overflow
                else max (end - start) t.tick_delay + r.0.tick_overflow)
              on in
        after
          (run_ticks-Accounted o ticks r.0
            (subst (NonNegative o) (sym (ap (λ x. x.tick_overflow_recovery_rate) b.only_overflow))
              nonneg)
            (ap (λ x. x.tick_overflow_recovery) b.only_overflow ∙ on)
            (omega (arith, b.delay_eq, delay)) (omega (arith, balance, b.sleep_le, small)))
          (λ x a.
            let same : length ticks * r.0.tick_delay ≡ length ticks * t.tick_delay =
              ap (λ (d : ℕ). length ticks * d) b.delay_eq in
            given (record {
              total = omega (arith, a.total, balance, same, mul_suc (length ticks) t.tick_delay);
              slept_le =
                  omega (arith, a.slept_le, b.sleep_le, same, mul_suc (length ticks) t.tick_delay);
            })))
