-- ===== src/Examples/Values.antt =====
-- Values that the runs share: `f32` as thousandths, and a configuration.
use cobalt_rs.Common.{ℕ, ◌+◌, ◌-◌, ◌*◌, ◌/◌, max, true}
use cobalt_rs.Config.{FloatOps, Config, pos}

abbrev pub thousandths : FloatOps ℕ
thousandths = record {
  of_nat = λ n. n * 1000;
  fadd = λ a b. a + b;
  fsub = λ a b. a - b;
  fmul = λ a b. a * b / 1000;
  fdiv = λ a b. a * 1000 / b;
  fmax = max;
  ceil = λ a. (a + 999) / 1000 * 1000;
  tenth = 100;
  to_nat = λ a. a / 1000;
  to_int = λ a. pos (a / 1000);
}

abbrev pub config : Config ℕ
config = record {
  send_rate = 30;
  protocol_header = (1, 2, 3, 4);
  packet_max_size = 1400;
  packet_drop_threshold = 1000000000;
  connection_init_threshold = 100000000;
  connection_drop_threshold = 1000000000;
  connection_closing_threshold = 150000000;
  message_quota_instant = 60000;
  message_quota_reliable = 20000;
  message_quota_ordered = 20000;
  tick_overflow_recovery = true;
  tick_overflow_recovery_rate = 1000;
}
