-- ===== src/Ticker/Balance.antt =====
-- src/shared/ticker.rs: the time of a tick: what it took, what it slept, and what it owes.
use cobalt_rs.Common.{
  ℕ, ◌+◌, ◌-◌, ◌%◌, ◌^◌, ◌≤◌, ◌<◌, ◌≡◌, refl, ap, ◌∙◌, min, max, Bool, true, false, ltb,
  if◌then◌else◌, arith, Returns, given, after, checked_sub-Returns,
}
use cobalt_rs.Config.{pos, FloatOps}
use cobalt_rs.Ticker.{
  Ticker, nanos_from_duration, as_i64, min_i64, positive_difference, checked_add, recover, adjust,
  end_tick,
}

nanos_lem : (d : ℕ) → nanos_from_duration d ≡ d
unfolding nanos_from_duration
nanos_lem d = omega arith

checked_add-Returns : (a b : ℕ) → a + b < 2 ^ 64 → Returns (checked_add a b) (λ s. s ≡ a + b)
checked_add-Returns a b h =
    let yes : ltb (a + b) (2 ^ 64) ≡ true = ground arith in rw yes (given refl)

module _ {F : Type 0} where
  -- The correction of the recovery is never negative.
  abbrev pub NonNegative : FloatOps F → F → Type 0
  NonNegative o rate = (m : ℕ) → (k : ℕ) × (o.to_int (o.fmul (o.of_nat m) rate) ≡ pos k)

  -- A ticker after a tick that took `taken` and slept `sleep`.
  pub record Balanced (taken : ℕ) (t t' : Ticker F) (sleep : ℕ) : Type 0 where
    pub balance : taken + sleep + t.tick_overflow ≡ (
        if t.tick_overflow_recovery
        then t.tick_delay + t'.tick_overflow
        else max taken t.tick_delay + t'.tick_overflow)
    pub sleep_le : sleep ≤ t.tick_delay
    pub delay_eq : t'.tick_delay ≡ t.tick_delay
    pub only_overflow : t' ≡ record t { tick_overflow = t'.tick_overflow }

  -- What the recovery makes of the overflow and the reduction.
  record Recovered (taken : ℕ) (t t' : Ticker F) (reduction : ℕ) : Type 0 where
    moved : reduction + t'.tick_overflow ≡ t.tick_overflow + taken
    reduction_le : reduction ≤ t.tick_delay
    same_delay : t'.tick_delay ≡ t.tick_delay
    same_others : t' ≡ record t { tick_overflow = t'.tick_overflow }

  recover-Recovered :
      (o : FloatOps F) (taken : ℕ) (t : Ticker F)
      → NonNegative o t.tick_overflow_recovery_rate
      → t.tick_overflow + taken < 2 ^ 63
      → t.tick_delay < 2 ^ 32
      → Returns (recover o taken (min taken t.tick_delay) t) (λ r. Recovered taken t r.0 r.1)
  unfolding recover as_i64 min_i64 positive_difference
  recover-Recovered o taken t nonneg small delay =
      after (checked_sub-Returns taken (min taken t.tick_delay) (omega arith)) (λ excess a.
        after (checked_add-Returns t.tick_overflow excess (omega (arith, a))) (λ overflow b.
          after (checked_sub-Returns t.tick_delay (min taken t.tick_delay) (omega arith)) (λ m c.
            let (k, e) = nonneg m in
            let low : ltb overflow (2 ^ 63) ≡ true = ground (arith, a, b) in
            rw (e, low)
              (after (checked_sub-Returns overflow (overflow - min k m) (omega arith)) (λ gain g.
                after (checked_add-Returns (min taken t.tick_delay) gain (omega (arith, a, b, g)))
                  (λ r s. given (record {
                    moved = omega (arith, a, b, c, g, s);
                    reduction_le = omega (arith, a, b, c, g, s);
                    same_delay = refl;
                    same_others = refl;
                  })))))))

  record Adjusted (b : Bool) (taken : ℕ) (t t' : Ticker F) (reduction : ℕ) : Type 0 where
    adjusted :
        taken + (t.tick_delay - reduction) + t.tick_overflow
        ≡ (if b then t.tick_delay + t'.tick_overflow else max taken t.tick_delay + t'.tick_overflow)
    within : reduction ≤ t.tick_delay
    kept_delay : t'.tick_delay ≡ t.tick_delay
    kept_others : t' ≡ record t { tick_overflow = t'.tick_overflow }

  adjust-Adjusted :
      (b : Bool) (o : FloatOps F) (taken : ℕ) (t : Ticker F)
      → NonNegative o t.tick_overflow_recovery_rate
      → t.tick_overflow + taken < 2 ^ 63
      → t.tick_delay < 2 ^ 32
      → Returns (adjust b o taken (min taken t.tick_delay) t) (λ r. Adjusted b taken t r.0 r.1)
  unfolding adjust
  adjust-Adjusted true o taken t nonneg small delay =
      let (r, run, v) = recover-Recovered o taken t nonneg small delay in
      (
        r,
        run,
        record {
          adjusted = omega (arith, v.moved, v.reduction_le);
          within = v.reduction_le;
          kept_delay = v.same_delay;
          kept_others = v.same_others;
        },
      )
  adjust-Adjusted false o taken t nonneg small delay = given (record {
    adjusted = omega arith;
    within = omega arith;
    kept_delay = refl;
    kept_others = refl;
  })

  -- A tick ends without a panic, and sleeps no longer than its delay. With the recovery, the time
  -- that it took and that it sleeps is its delay, but for the change of the overflow: what a tick
  -- takes longer is owed, and later ticks sleep as much less. Without it each tick lasts its delay,
  -- or the time that it took.
  pub end_tick-Balanced :
      (o : FloatOps F) (now : ℕ) (t : Ticker F)
      → NonNegative o t.tick_overflow_recovery_rate
      → t.tick_overflow + (now - t.tick_start) < 2 ^ 63
      → t.tick_delay < 2 ^ 32
      → Returns (end_tick o now t) (λ r. Balanced (now - t.tick_start) t r.0 r.1)
  unfolding end_tick
  end_tick-Balanced o now t nonneg small delay = rw (nanos_lem (now - t.tick_start)) (
      after (adjust-Adjusted t.tick_overflow_recovery o (now - t.tick_start) t nonneg small delay)
        (λ r v.
          after (checked_sub-Returns r.0.tick_delay r.1 (omega (arith, v.within, v.kept_delay)))
            (λ s d.
              let slept : s % 2 ^ 32 ≡ t.tick_delay - r.1 = omega (arith, d, delay, v.kept_delay) in
              given (record {
                balance = ap (λ x. now - t.tick_start + x + t.tick_overflow) slept ∙ v.adjusted;
                sleep_le = omega (arith, slept);
                delay_eq = v.kept_delay;
                only_overflow = v.kept_others;
              }))))
