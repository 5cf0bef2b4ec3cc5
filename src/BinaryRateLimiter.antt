-- ===== src/BinaryRateLimiter.antt =====
-- src/shared/binary_rate_limiter.rs. `update` reads the clock at most three times: the readings 0
-- and 1 belong to the network conditions, 2 to the mode. Counters wrap around where the code would
-- overflow.
pub mod Modes
pub mod Delays
pub mod Recovery
use cobalt_rs.Common.{
  ℕ, ◌+◌, ◌-◌, ◌*◌, ◌/◌, ◌%◌, ◌^◌, max, min, Bool, true, false, ◌||◌, not, ltb, leb, ◌==◌,
  if◌then◌else◌,
}
use cobalt_rs.Config.{Config, FloatOps}
use cobalt_rs.Traits.{Clock, RateLimiter}

abbrev pub min_good_mode_time_delay : ℕ
min_good_mode_time_delay = 1000

abbrev pub max_good_mode_time_delay : ℕ
max_good_mode_time_delay = 60000

pub data Mode : Type 0 where
  good bad : Mode

pub record BinaryRateLimiter : Type 0 where
  pub tick : ℕ
  pub max_tick : ℕ
  pub mode : Mode
  pub rtt_threshold : ℕ
  pub last_bad_time : ℕ
  pub last_good_time : ℕ
  pub good_time_duration : ℕ
  pub delay_until_good_mode : ℕ

unfoldable pub millis_from_duration : ℕ → ℕ
millis_from_duration d = d / 10 ^ 9 * 1000 + d % 10 ^ 9 / 1000000

-- The milliseconds from `i` to the instant `now`, 0 if that lies before.
unfoldable pub time_since : ℕ → ℕ → ℕ
unfolding millis_from_duration
time_since now i = millis_from_duration (now - i)

unfoldable pub new : {F : Type 0} → FloatOps F → Config F → Clock → BinaryRateLimiter
new o config clock =
    let rate = o.of_nat config.send_rate in
    record {
      tick = 0;
      max_tick = o.to_nat (o.fdiv rate (o.fdiv (o.of_nat 33) (o.fdiv (o.of_nat 100) rate)));
      mode = good;
      rtt_threshold = 250;
      last_bad_time = clock 0;
      last_good_time = clock 1;
      good_time_duration = 0;
      delay_until_good_mode = min_good_mode_time_delay;
    }

-- The conditions that the round trip time shows, and what is noted of them.
unfoldable pub conditions : ℕ → Clock → BinaryRateLimiter → Mode × BinaryRateLimiter
unfolding time_since
conditions rtt clock r =
    if leb rtt r.rtt_threshold
    then (
      good,
      record r {
        good_time_duration =
            (r.good_time_duration + time_since (clock 0) r.last_good_time) % 2 ^ 64;
        last_good_time = clock 1;
      },
    )
    else (bad, record r { last_bad_time = clock 0; good_time_duration = 0 })

unfoldable pub change_mode : Mode → Mode → Clock → BinaryRateLimiter → BinaryRateLimiter
unfolding time_since
change_mode good bad clock r =
    if ltb (time_since (clock 2) r.last_bad_time) 10000
    then record r {
      mode = bad;
      delay_until_good_mode = min (r.delay_until_good_mode * 2 % 2 ^ 64) max_good_mode_time_delay;
    }
    else record r { mode = bad }
change_mode good good clock r =
    if leb 10000 r.good_time_duration
    then record r {
      good_time_duration = r.good_time_duration - 10000;
      delay_until_good_mode = max r.delay_until_good_mode min_good_mode_time_delay;
    }
    else r
change_mode bad _ clock r =
    if ltb r.delay_until_good_mode (time_since (clock 2) r.last_bad_time)
    then record r { mode = good }
    else r

unfoldable pub step_tick : BinaryRateLimiter → BinaryRateLimiter
step_tick r =
    let tick = (r.tick + 1) % 2 ^ 32 in record r { tick = if tick == r.max_tick then 0 else tick }

unfoldable pub update : BinaryRateLimiter → ℕ → Clock → BinaryRateLimiter
unfolding conditions change_mode step_tick
update r rtt clock =
    let (seen, r') = conditions rtt clock r in step_tick (change_mode r'.mode seen clock r')

abbrev pub is_bad : Mode → Bool
is_bad good = false
is_bad bad = true

unfoldable pub congested : BinaryRateLimiter → Bool
congested r = is_bad r.mode

unfoldable pub should_send : BinaryRateLimiter → Bool
unfolding congested
should_send r = not (congested r) || r.tick == 0

unfoldable pub reset : BinaryRateLimiter → Clock → BinaryRateLimiter
reset r clock = record r {
  tick = 0;
  mode = good;
  last_bad_time = clock 0;
  last_good_time = clock 1;
  good_time_duration = 0;
  delay_until_good_mode = min_good_mode_time_delay;
}

-- The implementation of the trait. The packet loss is not looked at.
unfoldable pub binary_rate_limiter : {F : Type 0} → FloatOps F → RateLimiter F BinaryRateLimiter
unfolding new update congested should_send reset
binary_rate_limiter o = record {
  new_limiter = new o;
  update = λ r rtt loss clock. update r rtt clock;
  congested = congested;
  should_send = should_send;
  reset_limiter = reset;
}
