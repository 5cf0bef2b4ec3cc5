-- ===== src/Stats.antt =====
-- src/shared/stats.rs: the bytes sent and received over the last second. The code keeps the two
-- counts in one record of two fields and treats them alike; an index out of range panics, and so
-- do a subtraction below 0, a sum above a `u32`, and the arithmetic of `i32` where it overflows. An
-- `i32` is its bit pattern, below 2 ^ 32; `usize` has 64 bits.
pub mod Ring
pub mod Columns
pub mod Window
use cobalt_rs.Common.{
  ℕ, zero, suc, ◌+◌, ◌-◌, ◌%◌, ◌^◌, get_elem?, List, [], ◌∷◌, Option, none, some, map, ltb, leb,
  ◌==◌, ◌||◌, ◌&&◌, if◌then◌else◌, Outcome, done, panic, unwrap, checked_sub, ◌>>=◌,
}
use cobalt_rs.Config.{Config}

pub record Stats : Type 0 where
  pub bytes_sent : ℕ
  pub bytes_received : ℕ

unfoldable pub reset_stats : Stats → Stats
reset_stats s = record s { bytes_sent = 0; bytes_received = 0 }

unfoldable pub default_stats : Stats
default_stats = record { bytes_sent = 0; bytes_received = 0 }

pub record StatsCollector (F : Type 0) : Type 0 where
  pub tick : ℕ
  pub config : Config F
  pub buckets : List Stats
  pub averages : Stats

abbrev pub replicate {ℓ} : {A : Type ℓ} → ℕ → A → List A
replicate zero x = []
replicate (suc n) x = x ∷ replicate n x

abbrev pub update_at {ℓ} : {A : Type ℓ} → ℕ → (A → A) → List A → List A
update_at i f [] = []
update_at zero f (x ∷ xs) = f x ∷ xs
update_at (suc i) f (x ∷ xs) = x ∷ update_at i f xs

-- `&mut xs[i]`, changed by `f`.
unfoldable pub index_mut {ℓ} : {A : Type ℓ} → List A → ℕ → (A → A) → Outcome (List A)
index_mut xs i f = unwrap (get_elem? xs i) >>= (λ x. done (update_at i f xs))

-- `a + b` on `u32`.
abbrev pub checked_add : ℕ → ℕ → Outcome ℕ
checked_add a b = if ltb (a + b) (2 ^ 32) then done (a + b) else panic

-- What an `i32` is without its sign.
abbrev pub abs_i32 : ℕ → ℕ
abs_i32 w = if ltb w (2 ^ 31) then w else 2 ^ 32 - w

-- `a % b` on `i32`: the result has the sign of `a`. It panics at 0, and where the quotient overflows.
unfoldable pub rem_i32 : ℕ → ℕ → Outcome ℕ
rem_i32 a b =
    if b == 0 || (a == 2 ^ 31 && b == 2 ^ 32 - 1)
    then panic
    else done (
        if ltb a (2 ^ 31) then abs_i32 a % abs_i32 b else (2 ^ 32 - abs_i32 a % abs_i32 b) % 2 ^ 32)

-- `i as usize`, with the sign extended.
unfoldable pub usize_from_i32 : ℕ → ℕ
usize_from_i32 w = if ltb w (2 ^ 31) then w else w + 2 ^ 64 - 2 ^ 32

module _ {F : Type 0} where
  unfoldable pub new : Config F → StatsCollector F
  unfolding default_stats
  new config = record {
    tick = 0;
    config = config;
    buckets = replicate (config.send_rate + 1) default_stats;
    averages = default_stats;
  }

  unfoldable pub set_config : Config F → StatsCollector F → StatsCollector F
  unfolding default_stats
  set_config config s = record s {
    config = config;
    buckets = replicate (config.send_rate + 1) default_stats;
  }

  -- `(self.tick as i32 + 1) % (self.config.send_rate + 1) as i32`, as a `usize`.
  unfoldable pub old_index : StatsCollector F → Outcome ℕ
  unfolding rem_i32 usize_from_i32
  old_index s =
      if s.tick % 2 ^ 32 == 2 ^ 31 - 1 || leb (2 ^ 64) (s.config.send_rate + 1)
      then panic
      else rem_i32 ((s.tick % 2 ^ 32 + 1) % 2 ^ 32) ((s.config.send_rate + 1) % 2 ^ 32)
        >>= (λ i. done (usize_from_i32 i))

  unfoldable pub set_bytes_sent : ℕ → StatsCollector F → Outcome (StatsCollector F)
  unfolding old_index index_mut
  set_bytes_sent bytes s = do
    index ← old_index s
    old ← unwrap (get_elem? s.buckets index)
    rest ← checked_sub s.averages.bytes_sent old.bytes_sent
    total ← checked_add rest bytes
    buckets ← index_mut s.buckets s.tick (λ b. record b { bytes_sent = bytes })
    done (record s { averages = record s.averages { bytes_sent = total }; buckets = buckets })

  unfoldable pub set_bytes_received : ℕ → StatsCollector F → Outcome (StatsCollector F)
  unfolding old_index index_mut
  set_bytes_received bytes s = do
    index ← old_index s
    old ← unwrap (get_elem? s.buckets index)
    rest ← checked_sub s.averages.bytes_received old.bytes_received
    total ← checked_add rest bytes
    buckets ← index_mut s.buckets s.tick (λ b. record b { bytes_received = bytes })
    done (record s { averages = record s.averages { bytes_received = total }; buckets = buckets })

  unfoldable pub tick : StatsCollector F → StatsCollector F
  tick s = record s { tick = (s.tick + 1) % (s.config.send_rate + 1) }

  unfoldable pub average : StatsCollector F → Stats
  average s = s.averages

  unfoldable pub reset : StatsCollector F → StatsCollector F
  unfolding reset_stats
  reset s = record s {
    averages = record { bytes_sent = 0; bytes_received = 0 };
    buckets = map reset_stats s.buckets;
  }
