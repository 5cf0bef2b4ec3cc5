-- ===== src/Config.antt =====
-- src/shared/config.rs, with the arithmetic of `f32` and the clock.
-- Instants and durations are numbers of nanoseconds.
use cobalt_rs.Common.{ℕ, ◌*◌, Bool, true}

-- An `i64`. `negsuc n` is -(n + 1).
pub data ℤ : Type 0 where
  pos : ℕ → ℤ
  negsuc : ℕ → ℤ

-- `f32` is a type `F` with the operations that the code uses. No theorem assumes a law of them, so
-- each holds for IEEE arithmetic with whatever rounding.
pub record FloatOps (F : Type 0) : Type 0 where
  pub of_nat : ℕ → F  -- `as f32`
  pub fadd : F → F → F
  pub fsub : F → F → F
  pub fmul : F → F → F
  pub fdiv : F → F → F
  pub fmax : F → F → F
  pub ceil : F → F
  pub tenth : F  -- the literal 0.10
  pub to_nat : F → ℕ  -- `as u32`, `as usize`
  pub to_int : F → ℤ  -- `as i64`

pub record Config (F : Type 0) : Type 0 where
  pub send_rate : ℕ
  pub packet_max_size : ℕ
  pub protocol_header : ℕ × ℕ × ℕ × ℕ
  pub packet_drop_threshold : ℕ
  pub connection_init_threshold : ℕ
  pub connection_drop_threshold : ℕ
  pub connection_closing_threshold : ℕ
  pub message_quota_instant : F
  pub message_quota_reliable : F
  pub message_quota_ordered : F
  pub tick_overflow_recovery : Bool
  pub tick_overflow_recovery_rate : F

-- `Duration::from_millis`
abbrev pub from_millis : ℕ → ℕ
from_millis ms = ms * 1000000

unfoldable pub default_config : {F : Type 0} → FloatOps F → Config F
default_config o = record {
  send_rate = 30;
  protocol_header = (1, 2, 3, 4);
  packet_max_size = 1400;
  packet_drop_threshold = from_millis 1000;
  connection_init_threshold = from_millis 100;
  connection_drop_threshold = from_millis 1000;
  connection_closing_threshold = from_millis 150;
  message_quota_instant = o.of_nat 60;
  message_quota_reliable = o.of_nat 20;
  message_quota_ordered = o.of_nat 20;
  tick_overflow_recovery = true;
  tick_overflow_recovery_rate = o.of_nat 1;
}
