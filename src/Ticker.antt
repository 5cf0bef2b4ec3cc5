-- ===== src/Ticker.antt =====
-- src/shared/ticker.rs: the length of a tick. The sleep at the end of a tick is returned in
-- nanoseconds; unsigned and `i64` overflows panic.
pub mod Balance
pub mod Sequence
use cobalt_rs.Common.{
  ℕ, suc, ◌+◌, ◌-◌, ◌*◌, ◌/◌, ◌%◌, ◌^◌, ◌≤◌, min, Bool, true, false, ltb, leb, if◌then◌else◌,
  Outcome, done, panic, checked_sub, checked_div, ◌>>=◌,
}
use cobalt_rs.Config.{ℤ, pos, negsuc, Config, FloatOps}

pub record Ticker (F : Type 0) : Type 0 where
  pub tick_start : ℕ
  pub tick_overflow : ℕ
  pub tick_overflow_recovery : Bool
  pub tick_overflow_recovery_rate : F
  pub tick_delay : ℕ

unfoldable pub nanos_from_duration : ℕ → ℕ
nanos_from_duration d = d / 10 ^ 9 * 1000 * 1000000 + d % 10 ^ 9

-- `x as i64` of a `u64`.
unfoldable pub as_i64 : ℕ → ℤ
as_i64 x = if ltb x (2 ^ 63) then pos x else negsuc (2 ^ 64 - 1 - x)

-- `cmp::min` on `i64`, of a number and one that is not negative.
unfoldable pub min_i64 : ℤ → ℕ → ℤ
min_i64 (pos a) b = pos (min a b)
min_i64 (negsuc a) b = negsuc a

-- `cmp::max(0, a - b) as u64`, with `a - b` on `i64`.
unfoldable pub positive_difference : ℤ → ℤ → Outcome ℕ
positive_difference (pos a) (pos b) = done (a - b)
positive_difference (pos a) (negsuc b) =
    if ltb (a + suc b) (2 ^ 63) then done (a + suc b) else panic
positive_difference (negsuc a) (pos b) = if leb (suc a + b) (2 ^ 63) then done 0 else panic
positive_difference (negsuc a) (negsuc b) = done (b - a)

-- `a + b` on `u64`.
abbrev pub checked_add : ℕ → ℕ → Outcome ℕ
checked_add a b = if ltb (a + b) (2 ^ 64) then done (a + b) else panic

module _ {F : Type 0} where
  unfoldable pub new : Config F → ℕ → Outcome (Ticker F)
  new config now = do
    delay ← checked_div 1000000000 config.send_rate
    done (record {
      tick_start = now;
      tick_overflow = 0;
      tick_overflow_recovery = config.tick_overflow_recovery;
      tick_overflow_recovery_rate = config.tick_overflow_recovery_rate;
      tick_delay = delay;
    })

  unfoldable pub set_config : Config F → Ticker F → Outcome (Ticker F)
  set_config config t = do
    delay ← checked_div 1000000000 config.send_rate
    done (record t {
      tick_overflow_recovery = config.tick_overflow_recovery;
      tick_overflow_recovery_rate = config.tick_overflow_recovery_rate;
      tick_delay = delay;
    })

  unfoldable pub begin_tick : ℕ → Ticker F → Ticker F
  begin_tick now t = record t { tick_start = now }

  unfoldable pub reset : ℕ → Ticker F → Ticker F
  reset now t = record t { tick_start = now; tick_overflow = 0 }

  -- The part under `if self.tick_overflow_recovery`: the ticker and the reduction.
  unfoldable pub recover : FloatOps F → ℕ → ℕ → Ticker F → Outcome (Ticker F × ℕ)
  unfolding as_i64 min_i64 positive_difference
  recover o time_taken reduction t = do
    excess ← checked_sub time_taken reduction
    overflow ← checked_add t.tick_overflow excess
    max_correction ← checked_sub t.tick_delay reduction
    let correction =
        min_i64 (o.to_int (o.fmul (o.of_nat max_correction) t.tick_overflow_recovery_rate))
          max_correction
    reduced_overflow ← positive_difference (as_i64 overflow) correction
    gain ← checked_sub overflow reduced_overflow
    reduction' ← checked_add reduction gain
    done (record t { tick_overflow = reduced_overflow }, reduction')

  unfoldable pub adjust : Bool → FloatOps F → ℕ → ℕ → Ticker F → Outcome (Ticker F × ℕ)
  unfolding recover
  adjust true o time_taken reduction t = recover o time_taken reduction t
  adjust false o time_taken reduction t = done (t, reduction)

  -- The ticker, and how long the thread sleeps.
  unfoldable pub end_tick : FloatOps F → ℕ → Ticker F → Outcome (Ticker F × ℕ)
  unfolding nanos_from_duration adjust
  end_tick o now t = do
    let time_taken = nanos_from_duration (now - t.tick_start)
    let reduction = min time_taken t.tick_delay
    (t', reduction') ← adjust t.tick_overflow_recovery o time_taken reduction t
    sleep ← checked_sub t'.tick_delay reduction'
    done (t', sleep % 2 ^ 32)
