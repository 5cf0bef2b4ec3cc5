-- ===== src/Examples/Collectors.antt =====
-- Runs of src/shared/stats.rs.
use cobalt_rs.Common.{
  ℕ, ◌^◌, ◌-◌, ◌≡◌, refl, List, [], ◌∷◌, map, take, Returns, ◌>>=◌, panic, arith,
}
use cobalt_rs.Config.{Config}
use cobalt_rs.Stats.{Stats, new, average, set_bytes_received, set_bytes_sent, set_config, tick}
use cobalt_rs.Stats.Ring.{sum}
use cobalt_rs.Stats.Window.{all_ticks, average-all_ticks}
use cobalt_rs.Examples.Values.{config}

abbrev twice : Config ℕ
twice = record config { send_rate = 2 }

-- Received and sent bytes, the newest first.
abbrev ticks : List (ℕ × ℕ)
ticks = (7, 70) ∷ (5, 50) ∷ (3, 30) ∷ []

average-all_ticks_example : Returns (all_ticks ticks (new twice)) (λ s.
    ((average s).bytes_sent ≡ sum (take 2 (map (λ t. t.1) ticks)))
    × ((average s).bytes_received ≡ sum (take 2 (map (λ t. t.0) ticks))))
average-all_ticks_example =
    average-all_ticks twice ticks (omega arith) (omega arith)
      (omega arith, (omega arith, (omega arith, tt)))
      (omega arith, (omega arith, (omega arith, tt)))

-- A lower send rate leaves the tick beyond the new buckets.
lower_rate_panics : set_bytes_sent 1 (set_config twice (tick (tick (tick (new config))))) ≡ panic
unfolding new set_config tick set_bytes_sent
lower_rate_panics = refl

-- A send rate of 2 ^ 32 - 1, which a `u64` can have, makes the modulus 0.
zero_modulus_panics :
    (buckets : List Stats)
    → set_bytes_sent 1 (record {
      tick = 0;
      config = record config { send_rate = 2 ^ 32 - 1 };
      buckets = buckets;
      averages = record { bytes_sent = 0; bytes_received = 0 };
    })
      ≡ panic
unfolding set_bytes_sent
zero_modulus_panics buckets = refl

-- Ten bytes are received; then every other tick has no call of `set_bytes_received`, and the bucket
-- of the ten is subtracted twice.
skipped_receive_panics :
    (set_bytes_received 10 (new twice)
      >>= (λ s. set_bytes_received 0 (tick (tick s)))
      >>= (λ s. set_bytes_received 0 (tick (tick s)))
      >>= (λ s. set_bytes_received 0 (tick s)))
    ≡ panic
unfolding new tick set_bytes_received
skipped_receive_panics = refl
