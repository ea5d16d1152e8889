-- ===== src/Strategies/MicroRules/Setups/Found.antt =====
-- What a setup that was found says of its bars.
use protocol_monitor.Common.{
  ℕ, ◌+◌, ◌-◌, ◌≤◌, ◌<◌, ◌≡◌, refl, true, ◌||◌, Bool-cases, Option-cases, inl, inr, Option, none,
  some, List, [], ◌∷◌, keep, get_elem?, get_last?, take_last, slice, all_of, length, All,
  All-take_last, ltb, leb, arith,
}
use mathlib.Core.Path.{subst}
use mathlib.Core.Option.{some-injective}
use protocol_monitor.Numbers.{Numbers, nought}
use protocol_monitor.Market.Kline.{Kline, DateTime}
use protocol_monitor.Strategies.MicroRules.{CryptoMicroRuleConfig}
use protocol_monitor.Strategies.MicroRules.Numeric.Laws.{
  search_down-IsFoundAt, All-keep_of, All-get_last?,
}
use protocol_monitor.Strategies.MicroRules.Setups.Pairs.{
  IsNearPair, latest_equal_low_pair-IsNearPair,
}
use protocol_monitor.Strategies.MicroRules.Setups.{
  ConfirmedPivot, VolumeNode, Cm2Setup, Cm3Setup, low_side, confirmed_pivots, latest_equal_low_pair,
  volume_node, node_in, profile_before, cm2_setup_at, find_cm2_setup, mean_price, cm3_sweep,
  cm3_setup_at, find_cm3_setup,
}

module _ (N : Numbers) where
  open N use {Float, float, sub, mul, add, lt, le}

  abbrev IsClosedBy : DateTime → Kline N → Type 0
  IsClosedBy t k = k.close_time ≤ t

  node_in-available :
      (t : DateTime) (bins : ℕ) (window : List (Kline N)) (last : Option (Kline N))
      (node : VolumeNode N)
      → ((k : Kline N) → last ≡ some k → k.close_time ≤ t)
      → node_in N bins window last ≡ some node
      → node.available_at ≤ t
  node_in-available t bins [] last node h e = absurd (ground arith)
  node_in-available t bins (k ∷ ks) none node h e = absurd (ground arith)
  node_in-available t bins (k ∷ ks) (some last) node h e = ground (arith, h last)

  volume_node-available :
      (t : DateTime) (bars : List (Kline N)) (config : CryptoMicroRuleConfig N)
      (node : VolumeNode N)
      → All (IsClosedBy t) bars
      → volume_node N bars config ≡ some node
      → node.available_at ≤ t
  unfolding volume_node
  volume_node-available t bars config node h e =
      elim (Bool-cases (ltb (length bars) config.profile_min_bars)) [
        | inl few ↦ absurd (ground (arith, few))
        | inr enough ↦
            let window = take_last config.profile_lookback_15m bars in
            node_in-available t config.profile_bins window (get_last? window) node
              (λ k last.
                All-get_last? (IsClosedBy t) window k
                  (All-take_last (IsClosedBy t) config.profile_lookback_15m bars h) last)
              (rw enough at e)
      ]

  cm2_setup_at-available :
      (t : DateTime) (bars_15m : List (Kline N)) (tolerance : Float)
      (config : CryptoMicroRuleConfig N) (i : ℕ) (a b c : Option (Kline N)) (s : Cm2Setup N)
      → All (IsClosedBy t) bars_15m
      → cm2_setup_at N bars_15m tolerance config i a b c ≡ some s
      → s.node.available_at ≤ t
  unfolding cm2_setup_at
  cm2_setup_at-available t bars_15m tolerance config i none b c s h e = absurd (ground arith)
  cm2_setup_at-available t bars_15m tolerance config i (some x) none c s h e = absurd (ground arith)
  cm2_setup_at-available t bars_15m tolerance config i (some x) (some y) none s h e =
      absurd (ground arith)
  cm2_setup_at-available t bars_15m tolerance config i (some x) (some y) (some z) s h e =
      elim (Option-cases (volume_node N (profile_before N y bars_15m) config)) [
        | inl missing ↦ absurd (ground (arith, missing))
        | inr (node, found) ↦
            let known =
              volume_node-available t (profile_before N y bars_15m) config node
                (All-keep_of (IsClosedBy t) (λ (k : Kline N). leb k.close_time y.open_time) bars_15m
                  h)
                found in
            ground (arith, found, known)
      ]

  pub find_cm2_setup-available :
      (t : DateTime) (bars_5m bars_15m : List (Kline N)) (atr : Float)
      (config : CryptoMicroRuleConfig N) (s : Cm2Setup N)
      → All (λ (k : Kline N). k.close_time ≤ t) bars_15m
      → find_cm2_setup N bars_5m bars_15m atr config ≡ some s
      → s.node.available_at ≤ t
  unfolding find_cm2_setup
  find_cm2_setup-available t bars_5m bars_15m atr config s h e =
      elim (Bool-cases (ltb (length bars_5m) 2 || le atr (nought N))) [
        | inl few ↦ absurd (ground (arith, few))
        | inr enough ↦
            let (i, found) = search_down-IsFoundAt _ _ _ s (rw enough at e) in
            cm2_setup_at-available t bars_15m _ config i _ _ _ s h found.2
      ]

  -- A sweep of the mean of two near lows that were confirmed before it, reclaimed first by the last
  -- bar `current`.
  pub record IsSweep (bars : List (Kline N)) (atr : Float) (config : CryptoMicroRuleConfig N)
      (bar current : Kline N) (s : Cm3Setup N) : Type 0 where
    pub is_low : s.sweep_low ≡ float bar.low
    pub near_lows :
        (a b : ConfirmedPivot N) × IsNearPair N bars config
          (mul atr config.equal_low_tolerance_atr)
          s.sweep_index
          a
          b
        × (s.equal_low ≡ N.div (add a.price b.price) (N.lit 2 0))
    pub is_swept : lt s.sweep_low (sub s.equal_low (mul atr config.minimum_sweep_atr)) ≡ true
    pub is_reclaimed :
        lt (add s.equal_low (mul atr config.reclaim_buffer_atr)) (float current.close) ≡ true
    pub held_below :
        all_of
          (λ (k : Kline N).
            le (float k.close) (add s.equal_low (mul atr config.reclaim_buffer_atr)))
          (slice s.sweep_index (length bars - 1) bars)
        ≡ true
    pub not_invalidated :
        all_of
          (λ (k : Kline N). lt s.sweep_low (float k.close))
          (slice (s.sweep_index + 1) (length bars - 1 + 1) bars)
        ≡ true

  module _ (bars : List (Kline N)) (atr : Float) (config : CryptoMicroRuleConfig N)
      (bar current : Kline N) (s : Cm3Setup N) where
    cm3_sweep-IsSweep :
        (i : ℕ) (a b : ConfirmedPivot N)
        → IsNearPair N bars config (mul atr config.equal_low_tolerance_atr) i a b
        → cm3_sweep N bars atr config (length bars - 1) i (mean_price N (a, b)) bar current ≡ some s
        → (s.sweep_index ≡ i) × IsSweep bars atr config bar current s
    unfolding cm3_sweep
    cm3_sweep-IsSweep i a b near e =
        let level = mean_price N (a, b) in
        let reclaim = add level (mul atr config.reclaim_buffer_atr) in
        let low = float bar.low in
        elim (Bool-cases (lt low (sub level (mul atr config.minimum_sweep_atr)))) [
          | inr no_sweep ↦ absurd (ground (arith, no_sweep))
          | inl swept ↦ elim (Bool-cases (lt reclaim (float current.close))) [
            | inr no_reclaim ↦ absurd (ground (arith, swept, no_reclaim))
            | inl reclaimed ↦
                elim (Bool-cases (
                  all_of (λ (k : Kline N). le (float k.close) reclaim)
                    (slice i (length bars - 1) bars))) [
                      | inr not_held ↦ absurd (ground (arith, swept, reclaimed, not_held))
                      | inl held ↦
                          elim (Bool-cases (
                            all_of (λ (k : Kline N). lt low (float k.close))
                              (slice (i + 1) (length bars - 1 + 1) bars))) [
                                | inr broken ↦
                                    absurd (ground (arith, swept, reclaimed, held, broken))
                                | inl kept ↦
                                    subst
                                      (λ (t : Cm3Setup N).
                                        (t.sweep_index ≡ i) × IsSweep bars atr config bar current t)
                                      (some-injective _ _ (rw (swept, reclaimed, held, kept) at e))
                                      (
                                        refl,
                                        record {
                                          is_low = refl;
                                          near_lows = (a, b, near, refl);
                                          is_swept = swept;
                                          is_reclaimed = reclaimed;
                                          held_below = held;
                                          not_invalidated = kept;
                                        },
                                      )
                              ]
                    ]
          ]
        ]

  cm3_setup_at-IsSweep :
      (bars : List (Kline N)) (atr : Float) (config : CryptoMicroRuleConfig N) (i : ℕ)
      (a b : Option (Kline N)) (s : Cm3Setup N)
      → cm3_setup_at N bars
          (confirmed_pivots N bars low_side config)
          atr
          config
          (length bars - 1)
          i
          a
          b
        ≡ some s
      → (s.sweep_index ≡ i)
        × ((bar : Kline N) × (current : Kline N) × (a ≡ some bar)
            × (b ≡ some current)
            × IsSweep bars atr config bar current s)
  unfolding cm3_setup_at
  cm3_setup_at-IsSweep bars atr config i none b s e = absurd (ground arith)
  cm3_setup_at-IsSweep bars atr config i (some bar) none s e = absurd (ground arith)
  cm3_setup_at-IsSweep bars atr config i (some bar) (some current) s e =
      let lows =
        keep (λ (p : ConfirmedPivot N). ltb p.confirmed_index i)
          (confirmed_pivots N bars low_side config) in
      let tolerance = mul atr config.equal_low_tolerance_atr in
      elim (Option-cases (latest_equal_low_pair N lows tolerance)) [
        | inl missing ↦ absurd (ground (arith, missing))
        | inr ((x, y), found) ↦
            let near = latest_equal_low_pair-IsNearPair N bars config tolerance i x y found in
            let (index, sweep) =
              cm3_sweep-IsSweep bars atr config bar current s i x y near
                (rw (found, cm3_setup_at) at e) in
            (index, (bar, current, refl, refl, sweep))
      ]

  -- A setup of C-M3 that is found is a sweep, at its index, of the mean of two different lows of the
  -- bars: each the lowest of the bars around it, both confirmed before the sweep, and at most the
  -- tolerance apart. The last bar is the first to reclaim it, and no bar after the sweep closed at or
  -- below its low. And it is the latest: no later index gives a setup.
  pub find_cm3_setup-IsSweep :
      (bars : List (Kline N)) (atr : Float) (config : CryptoMicroRuleConfig N) (s : Cm3Setup N)
      → find_cm3_setup N bars atr config ≡ some s
      → (bar : Kline N) × (current : Kline N) × (get_elem? bars s.sweep_index ≡ some bar)
        × (get_last? bars ≡ some current)
        × IsSweep bars atr config bar current s
        × ((j : ℕ)
            → s.sweep_index < j
            → j < length bars
            → cm3_setup_at N bars
                (confirmed_pivots N bars low_side config)
                atr
                config
                (length bars - 1)
                j
                (get_elem? bars j)
                (get_last? bars)
              ≡ none)
  unfolding find_cm3_setup
  find_cm3_setup-IsSweep bars atr config s e =
      elim (Bool-cases (ltb (length bars) 2 || le atr (nought N))) [
        | inl few ↦ absurd (ground (arith, few))
        | inr enough ↦
            let (i, (above, below, hit, later)) = search_down-IsFoundAt _ _ _ s (rw enough at e) in
            let (index, (bar, current, at_bar, last, sweep)) =
              cm3_setup_at-IsSweep bars atr config i _ _ s hit in
            (
              bar,
              current,
              rw index at_bar,
              last,
              sweep,
              λ j p q. later j (rw index at p) (ground (arith, enough)),
            )
      ]
