-- ===== src/Stats/Window.antt =====
-- src/shared/stats.rs: the averages after a history of ticks.
use cobalt_rs.Common.{
  ℕ, get_elem?, ◌+◌, ◌-◌, ◌%◌, ◌^◌, ◌<◌, ◌≡◌, refl, sym, ap, ap₂, subst, ◌∙◌, List, [], ◌∷◌, some,
  map, arith, take, get_or, Outcome, done, Returns, given, after, ◌>>=◌, true, false, leb, ltb,
  ◌==◌, ◌||◌, ◌&&◌,
}
use cobalt_rs.Config.{Config}
use cobalt_rs.Stats.{
  StatsCollector, new, update_at, index_mut, old_index, rem_i32, usize_from_i32, set_bytes_sent,
  set_bytes_received, tick, average, default_stats,
}
use cobalt_rs.Stats.Ring.{Ring, Ring-new, Ring-oldest, Ring-step, Ring-cast, sum, slot}
use cobalt_rs.Stats.Columns.{get_elem-map, map-update_at, map-update_same, map-replicate}

-- The number of the current tick is there.
at_tick :
    {n t total : ℕ} {ring history : List ℕ}
    → Ring n t ring history total
    → get_elem? ring t ≡ some (get_or history (n - 1) 0)
at_tick {n} {t} {total} {ring} r =
    let at : t ≡ slot n t (n - 1) = ground (arith, r.two, r.tick_lt) in
    ap (get_elem? ring) at ∙ r.slots (n - 1) (omega (arith, r.two))

-- No sum of `m` numbers in a row, the newest first, is above a `u32`.
abbrev pub Fits : ℕ → List ℕ → Type 0
Fits m [] = Unit
Fits m (b ∷ older) = (b + sum (take (m - 1) older) < 2 ^ 32) × Fits m older

module _ {F : Type 0} where
  abbrev sent_column : StatsCollector F → List ℕ
  sent_column s = map (λ b. b.bytes_sent) s.buckets

  abbrev received_column : StatsCollector F → List ℕ
  received_column s = map (λ b. b.bytes_received) s.buckets

  -- Both counts as rings.
  record Rings (s : StatsCollector F) (sent received : List ℕ) : Type 0 where
    sent_ring : Ring (s.config.send_rate + 1) s.tick (sent_column s) sent s.averages.bytes_sent
    received_ring :
        Ring (s.config.send_rate + 1) s.tick (received_column s) received s.averages.bytes_received

  -- The calls of one tick, of the bytes that were received and those that were sent.
  abbrev pub one_tick : ℕ × ℕ → StatsCollector F → Outcome (StatsCollector F)
  one_tick (received, sent) s = do
    s1 ← set_bytes_received received s
    s2 ← set_bytes_sent sent s1
    done (tick s2)

  -- All ticks, the newest first.
  abbrev pub all_ticks : List (ℕ × ℕ) → StatsCollector F → Outcome (StatsCollector F)
  all_ticks [] s = done s
  all_ticks (t ∷ older) s = all_ticks older s >>= one_tick t

  -- What setting the count of sent bytes makes of the two columns.
  record SetSent (b : ℕ) (s s' : StatsCollector F) (sent : List ℕ) : Type 0 where
    sent_config : s'.config ≡ s.config
    sent_tick : s'.tick ≡ s.tick
    sent_set : sent_column s' ≡ update_at s.tick (λ x. b) (sent_column s)
    sent_total : s'.averages.bytes_sent ≡ b + sum (take (s.config.send_rate + 1 - 2) sent)
    received_same : received_column s' ≡ received_column s
    received_total_same : s'.averages.bytes_received ≡ s.averages.bytes_received

  -- Within the range of an `i32` the index of the oldest bucket is the one after the current.
  old_index_lem :
      (s : StatsCollector F)
      → s.tick < s.config.send_rate + 1
      → s.config.send_rate + 1 < 2 ^ 31
      → old_index s ≡ done ((s.tick + 1) % (s.config.send_rate + 1))
  unfolding old_index rem_i32 usize_from_i32
  old_index_lem s here small =
      let fits : (s.tick % 2 ^ 32 == 2 ^ 31 - 1 || leb (2 ^ 64) (s.config.send_rate + 1)) ≡ false =
        ground arith in
      let next : (s.tick % 2 ^ 32 + 1) % 2 ^ 32 ≡ s.tick + 1 = omega arith in
      let count : (s.config.send_rate + 1) % 2 ^ 32 ≡ s.config.send_rate + 1 = omega arith in
      let nonzero : (s.config.send_rate + 1 == 0
            || (s.tick + 1 == 2 ^ 31 && s.config.send_rate + 1 == 2 ^ 32 - 1))
          ≡ false =
        ground arith in
      let plus_a : ltb (s.tick + 1) (2 ^ 31) ≡ true = ground arith in
      let plus_b : ltb (s.config.send_rate + 1) (2 ^ 31) ≡ true = ground arith in
      let below : (s.tick + 1) % (s.config.send_rate + 1) < s.config.send_rate + 1 = omega arith in
      let plus_r : ltb ((s.tick + 1) % (s.config.send_rate + 1)) (2 ^ 31) ≡ true = ground arith in
      rw (fits, next, count, nonzero, plus_a, plus_b, plus_r) refl

  set_bytes_sent_lem :
      (b : ℕ) (s : StatsCollector F) (sent : List ℕ)
      → Ring (s.config.send_rate + 1) s.tick (sent_column s) sent s.averages.bytes_sent
      → s.config.send_rate + 1 < 2 ^ 31
      → b + sum (take (s.config.send_rate + 1 - 2) sent) < 2 ^ 32
      → Returns (set_bytes_sent b s) (λ s'. SetSent b s s' sent)
  unfolding set_bytes_sent index_mut
  set_bytes_sent_lem b s sent r small h =
      let (at, total) = Ring-oldest r in
      let (old, found, same) = get_elem-map (λ x. x.bytes_sent) s.buckets _ _ at in
      let (current, here, _) = get_elem-map (λ x. x.bytes_sent) s.buckets s.tick _ (at_tick r) in
      let enough : leb old.bytes_sent s.averages.bytes_sent ≡ true = ground (arith, total, same) in
      let fits : ltb (s.averages.bytes_sent - old.bytes_sent + b) (2 ^ 32) ≡ true =
        ground (arith, total, same, h) in
      rw (old_index_lem s r.tick_lt small, found, enough, fits, here)
        (given (record {
          sent_config = refl;
          sent_tick = refl;
          sent_set =
              map-update_at (λ x. x.bytes_sent) (λ x. record x { bytes_sent = b }) b s.tick
                s.buckets (λ x. refl);
          sent_total = omega (arith, total, same);
          received_same =
              map-update_same (λ x. x.bytes_received) (λ x. record x { bytes_sent = b }) s.tick
                s.buckets (λ x. refl);
          received_total_same = refl;
        }))

  -- What setting the count of received bytes makes of the two columns.
  record SetReceived (b : ℕ) (s s' : StatsCollector F) (received : List ℕ) : Type 0 where
    received_config : s'.config ≡ s.config
    received_tick : s'.tick ≡ s.tick
    received_set : received_column s' ≡ update_at s.tick (λ x. b) (received_column s)
    received_total :
        s'.averages.bytes_received ≡ b + sum (take (s.config.send_rate + 1 - 2) received)
    sent_same : sent_column s' ≡ sent_column s
    sent_total_same : s'.averages.bytes_sent ≡ s.averages.bytes_sent

  set_bytes_received_lem :
      (b : ℕ) (s : StatsCollector F) (received : List ℕ)
      → Ring (s.config.send_rate + 1) s.tick (received_column s) received s.averages.bytes_received
      → s.config.send_rate + 1 < 2 ^ 31
      → b + sum (take (s.config.send_rate + 1 - 2) received) < 2 ^ 32
      → Returns (set_bytes_received b s) (λ s'. SetReceived b s s' received)
  unfolding set_bytes_received index_mut
  set_bytes_received_lem b s received r small h =
      let (at, total) = Ring-oldest r in
      let (old, found, same) = get_elem-map (λ x. x.bytes_received) s.buckets _ _ at in
      let (current, here, _) =
        get_elem-map (λ x. x.bytes_received) s.buckets s.tick _ (at_tick r) in
      let enough : leb old.bytes_received s.averages.bytes_received ≡ true =
        ground (arith, total, same) in
      let fits : ltb (s.averages.bytes_received - old.bytes_received + b) (2 ^ 32) ≡ true =
        ground (arith, total, same, h) in
      rw (old_index_lem s r.tick_lt small, found, enough, fits, here)
        (given (record {
          received_config = refl;
          received_tick = refl;
          received_set =
              map-update_at (λ x. x.bytes_received) (λ x. record x { bytes_received = b }) b s.tick
                s.buckets (λ x. refl);
          received_total = omega (arith, total, same);
          sent_same =
              map-update_same (λ x. x.bytes_sent) (λ x. record x { bytes_received = b }) s.tick
                s.buckets (λ x. refl);
          sent_total_same = refl;
        }))

  one_tick-Rings :
      (t : ℕ × ℕ) (s : StatsCollector F) (sent received : List ℕ)
      → Rings s sent received
      → s.config.send_rate + 1 < 2 ^ 31
      → t.1 + sum (take (s.config.send_rate + 1 - 2) sent) < 2 ^ 32
      → t.0 + sum (take (s.config.send_rate + 1 - 2) received) < 2 ^ 32
      → Returns
          (one_tick t s)
          (λ s'. Rings s' (t.1 ∷ sent) (t.0 ∷ received) × (s'.config ≡ s.config))
  unfolding tick
  one_tick-Rings t s sent received r small hs hr =
      after (set_bytes_received_lem t.0 s received r.received_ring small hr) (λ s1 a.
        after
          (set_bytes_sent_lem t.1 s1 sent (kept s1 a)
            (subst (λ c. c.send_rate + 1 < 2 ^ 31) (sym a.received_config) small)
            (subst (λ c. t.1 + sum (take (c.send_rate + 1 - 2) sent) < 2 ^ 32)
              (sym a.received_config) hs))
          (λ s2 b. given (
            record {
              sent_ring =
                  Ring-cast (size_eq s1 s2 a b) (tick_eq s1 s2 a b)
                    (b.sent_set ∙ ap₂ (λ i c. update_at i (λ x. t.1) c) a.received_tick a.sent_same)
                    (b.sent_total
                      ∙ ap (λ c. t.1 + sum (take (c.send_rate + 1 - 2) sent)) a.received_config)
                    (Ring-step t.1 (t.1 + sum (take (s.config.send_rate + 1 - 2) sent)) r.sent_ring
                      refl);
              received_ring =
                  Ring-cast (size_eq s1 s2 a b) (tick_eq s1 s2 a b)
                    (b.received_same ∙ a.received_set) (b.received_total_same ∙ a.received_total)
                    (Ring-step t.0 (t.0 + sum (take (s.config.send_rate + 1 - 2) received))
                      r.received_ring refl);
            },
            b.sent_config ∙ a.received_config,
          )))
    where
      size_eq :
          (s1 s2 : StatsCollector F)
          → SetReceived t.0 s s1 received
          → SetSent t.1 s1 s2 sent
          → s2.config.send_rate + 1 ≡ s.config.send_rate + 1
      size_eq s1 s2 a b = ap (λ c. c.send_rate + 1) (b.sent_config ∙ a.received_config)

      tick_eq :
          (s1 s2 : StatsCollector F)
          → SetReceived t.0 s s1 received
          → SetSent t.1 s1 s2 sent
          → (s2.tick + 1) % (s2.config.send_rate + 1) ≡ (s.tick + 1) % (s.config.send_rate + 1)
      tick_eq s1 s2 a b =
          ap₂ (λ x y. (x + 1) % y) (b.sent_tick ∙ a.received_tick) (size_eq s1 s2 a b)

      kept :
          (s1 : StatsCollector F)
          → SetReceived t.0 s s1 received
          → Ring (s1.config.send_rate + 1) s1.tick (sent_column s1) sent s1.averages.bytes_sent
      kept s1 a =
          Ring-cast (ap (λ c. c.send_rate + 1) a.received_config) a.received_tick a.sent_same
            a.sent_total_same r.sent_ring

  all_ticks-Rings :
      (config : Config F) (ticks : List (ℕ × ℕ))
      → 0 < config.send_rate
      → config.send_rate + 1 < 2 ^ 31
      → Fits config.send_rate (map (λ t. t.1) ticks)
      → Fits config.send_rate (map (λ t. t.0) ticks)
      → Returns
          (all_ticks ticks (new config))
          (λ s. Rings s (map (λ t. t.1) ticks) (map (λ t. t.0) ticks) × (s.config ≡ config))
  unfolding new default_stats
  all_ticks-Rings config [] rate small hs hr = given (
    record {
      sent_ring =
          Ring-cast refl refl (map-replicate (λ b. b.bytes_sent) (config.send_rate + 1) refl) refl
            (Ring-new (config.send_rate + 1) (omega arith));
      received_ring =
          Ring-cast refl refl (map-replicate (λ b. b.bytes_received) (config.send_rate + 1) refl)
            refl (Ring-new (config.send_rate + 1) (omega arith));
    },
    refl,
  )
  all_ticks-Rings config (t ∷ older) rate small hs hr =
      after (all_ticks-Rings config older rate small hs.1 hr.1) (λ s r.
        let (s', run, both) =
          one_tick-Rings t s (map (λ t. t.1) older) (map (λ t. t.0) older) r.0
            (subst (λ c. c.send_rate + 1 < 2 ^ 31) (sym r.1) small)
            (bound t.1 (map (λ t. t.1) older) s r.1 hs.0)
            (bound t.0 (map (λ t. t.0) older) s r.1 hr.0) in
        (s', run, (both.0, both.1 ∙ r.1)))
    where
      bound :
          (b : ℕ) (h : List ℕ) (s : StatsCollector F)
          → s.config ≡ config
          → b + sum (take (config.send_rate - 1) h) < 2 ^ 32
          → b + sum (take (s.config.send_rate + 1 - 2) h) < 2 ^ 32
      bound b h s e k =
          let same : s.config.send_rate + 1 - 2 ≡ config.send_rate - 1 =
            omega (arith, ap (λ c. c.send_rate) e) in
          rw same k

  -- The two averages are the numbers of bytes over the last `send_rate` ticks, where each tick sets
  -- both counts and then steps, no such number is above a `u32`, and the send rate is above 0 and
  -- `send_rate + 1` in the range of an `i32`: in particular no call panics.
  pub average-all_ticks :
      (config : Config F) (ticks : List (ℕ × ℕ))
      → 0 < config.send_rate
      → config.send_rate + 1 < 2 ^ 31
      → Fits config.send_rate (map (λ t. t.1) ticks)
      → Fits config.send_rate (map (λ t. t.0) ticks)
      → Returns (all_ticks ticks (new config)) (λ s.
        ((average s).bytes_sent ≡ sum (take config.send_rate (map (λ t. t.1) ticks)))
        × ((average s).bytes_received ≡ sum (take config.send_rate (map (λ t. t.0) ticks))))
  unfolding average
  average-all_ticks config ticks rate small hs hr =
      let (s, run, both) = all_ticks-Rings config ticks rate small hs hr in
      let m : s.config.send_rate + 1 - 1 ≡ config.send_rate =
        omega (arith, ap (λ c. c.send_rate) both.1) in
      (
        s,
        run,
        (
          both.0.sent_ring.window ∙ ap (λ n. sum (take n (map (λ t. t.1) ticks))) m,
          both.0.received_ring.window ∙ ap (λ n. sum (take n (map (λ t. t.0) ticks))) m,
        ),
      )
