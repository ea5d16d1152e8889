-- ===== src/Strategies/MicroRules/Setups.antt =====
-- The searches of the rules: confirmed pivots, the volume node and the two setups.
pub mod Found
pub mod Pivots
pub mod Pairs
use protocol_monitor.Common.{
  ℕ, zero, suc, ◌+◌, ◌-◌, max, Bool, true, false, not, ◌&&◌, ◌||◌, Option, none, some, List, [],
  ◌∷◌, map, keep, drop, get_elem?, get_last?, get_or, take_last, slice, all_of, length, ltb, leb,
  ◌==◌, if◌then◌else◌,
}
use protocol_monitor.Numbers.{Numbers, nought, fmax, fmin, fmax_from, fmin_from, fabs}
use protocol_monitor.Market.Kline.{Kline, DateTime}
use protocol_monitor.Strategies.MicroRules.{CryptoMicroRuleConfig}
use protocol_monitor.Strategies.MicroRules.Numeric.{search_down, collect_up, floor_to}

-- `Literal["HIGH", "LOW"]`
pub data Side : Type 0 where
  high_side low_side : Side

pub record ConfirmedPivot (N : Numbers) : Type 0 where
  pub index : ℕ
  pub confirmed_index : ℕ
  pub price : N.Float

pub record VolumeNode (N : Numbers) : Type 0 where
  pub low : N.Float
  pub high : N.Float
  pub level : N.Float
  pub available_at : DateTime

pub record Cm2Setup (N : Numbers) : Type 0 where
  pub loss_index : ℕ
  pub node : VolumeNode N

pub record Cm3Setup (N : Numbers) : Type 0 where
  pub sweep_index : ℕ
  pub equal_low : N.Float
  pub sweep_low : N.Float
  pub atr : N.Float

module _ (N : Numbers) where
  open N use {Float, float, lit, add, sub, mul, div, lt, le, eq}

  abbrev pub side_value : Side → Kline N → Float
  side_value high_side k = float k.high
  side_value low_side k = float k.low

  abbrev pub count_equal : Float → List Float → ℕ
  count_equal v [] = 0
  count_equal v (x ∷ xs) = if eq x v then suc (count_equal v xs) else count_equal v xs

  -- `max(window)` or `min(window)`
  abbrev pub extreme : Side → List Float → Option Float
  extreme side [] = none
  extreme high_side (x ∷ xs) = some (fmax_from N x xs)
  extreme low_side (x ∷ xs) = some (fmin_from N x xs)

  abbrev pub is_extreme : Float → List Float → Option Float → Bool
  is_extreme value around none = false
  is_extreme value around (some e) = eq value e && count_equal value around == 1

  -- The body of the loop of `_confirmed_pivots`.
  unfoldable pub pivot_at : Side → List Float → ℕ → ℕ → ℕ → Option (ConfirmedPivot N)
  pivot_at side values left right index = elim (get_elem? values index) [
    | none ↦ none
    | some value ↦
        let around = slice (index - left) (index + right + 1) values in
        if is_extreme value around (extreme side around)
        then some (record { index = index; confirmed_index = index + right; price = value })
        else none
  ]

  -- `_confirmed_pivots`
  unfoldable pub confirmed_pivots :
      List (Kline N) → Side → CryptoMicroRuleConfig N → List (ConfirmedPivot N)
  confirmed_pivots bars side config =
      let values = map (side_value side) bars in
      collect_up (pivot_at side values config.pivot_left config.pivot_right) config.pivot_left
        (length values - config.pivot_right - config.pivot_left)

  abbrev pub if_near :
      Float
      → ConfirmedPivot N
      → Option (ConfirmedPivot N)
      → Option (ConfirmedPivot N × ConfirmedPivot N)
  if_near tolerance right none = none
  if_near tolerance right (some left) =
      if le (fabs N (sub right.price left.price)) tolerance then some (left, right) else none

  -- The inner loop of `_latest_equal_low_pair`, for the pivot at `right_index`.
  abbrev pub pair_below :
      List (ConfirmedPivot N)
      → Float
      → ℕ
      → Option (ConfirmedPivot N)
      → Option (ConfirmedPivot N × ConfirmedPivot N)
  pair_below pivots tolerance right_index none = none
  pair_below pivots tolerance right_index (some right) =
      search_down (λ (i : ℕ). if_near tolerance right (get_elem? pivots i)) 0 right_index

  -- `_latest_equal_low_pair`
  unfoldable pub latest_equal_low_pair :
      List (ConfirmedPivot N) → Float → Option (ConfirmedPivot N × ConfirmedPivot N)
  latest_equal_low_pair pivots tolerance =
      search_down (λ (i : ℕ). pair_below pivots tolerance i (get_elem? pivots i)) 1
        (length pivots - 1)

  abbrev pub add_at : ℕ → Float → List Float → List Float
  add_at i v [] = []
  add_at zero v (x ∷ xs) = add x v ∷ xs
  add_at (suc i) v (x ∷ xs) = x ∷ add_at i v xs

  abbrev pub zeros : ℕ → List Float
  zeros zero = []
  zeros (suc n) = nought N ∷ zeros n

  abbrev pub typical : Kline N → Float
  typical k = div (add (add (float k.high) (float k.low)) (float k.close)) (lit 3 0)

  -- The loop of lines 651 to 654; the bucket is clamped to the bins.
  unfoldable pub fill_bins : Float → Float → ℕ → List (Kline N) → List Float → List Float
  fill_bins low step bins [] volumes = volumes
  fill_bins low step bins (k ∷ ks) volumes =
      let bucket = floor_to N (bins - 1) (div (sub (typical k) low) step) in
      fill_bins low step bins ks (add_at bucket (fmax N (float k.volume) (nought N)) volumes)

  -- `max(range(bins), key=volumes.__getitem__)`: the first index of the greatest, from the best so
  -- far on.
  abbrev pub arg_max_from : ℕ → Float → ℕ → List Float → ℕ
  arg_max_from best value i [] = best
  arg_max_from best value i (x ∷ xs) =
      let onward = arg_max_from best value (suc i) xs in
      let restart = arg_max_from i x (suc i) xs in if lt value x then restart else onward

  abbrev pub arg_max : List Float → ℕ
  arg_max [] = 0
  arg_max (x ∷ xs) = arg_max_from 0 x 1 xs

  abbrev pub node_of : Float → Float → ℕ → List (Kline N) → Kline N → Option (VolumeNode N)
  node_of low high bins window last =
      let step = div (sub high low) (lit bins 0) in
      let index = arg_max (fill_bins low step bins window (zeros bins)) in
      let node_low = add low (mul (lit index 0) step) in
      let node_high = add node_low step in
      if not (lt low high)
      then none
      else some (record {
        low = node_low;
        high = node_high;
        level = div (add node_low node_high) (lit 2 0);
        available_at = last.close_time;
      })

  abbrev pub node_in : ℕ → List (Kline N) → Option (Kline N) → Option (VolumeNode N)
  node_in bins (k ∷ ks) (some last) =
      node_of (fmin_from N (float k.low) (map (side_value low_side) ks))
        (fmax_from N (float k.high) (map (side_value high_side) ks)) bins (k ∷ ks) last
  node_in bins _ _ = none

  -- `_volume_node`
  unfoldable pub volume_node : List (Kline N) → CryptoMicroRuleConfig N → Option (VolumeNode N)
  volume_node candles config =
      let window = take_last config.profile_lookback_15m candles in
      if ltb (length candles) config.profile_min_bars
      then none
      else node_in config.profile_bins window (get_last? window)

  -- Lines 634 and 635.
  unfoldable pub is_lost_and_retested : VolumeNode N → Float → Kline N → Kline N → Kline N → Bool
  is_lost_and_retested node tolerance previous loss current =
      le node.level (float previous.close)
      && lt (float loss.close) node.level
      && (le (sub node.low tolerance) (float current.high) && lt (float current.close) node.level)

  -- The 15-minute bars closed before a 5-minute bar opens.
  abbrev pub profile_before : Kline N → List (Kline N) → List (Kline N)
  profile_before loss = keep (λ (k : Kline N). leb k.close_time loss.open_time)

  -- The body of the loop of `_find_cm2_setup`, on its three bars, which are in range.
  unfoldable pub cm2_setup_at :
      List (Kline N)
      → Float
      → CryptoMicroRuleConfig N
      → ℕ
      → Option (Kline N)
      → Option (Kline N)
      → Option (Kline N)
      → Option (Cm2Setup N)
  cm2_setup_at bars_15m tolerance config loss_index (some previous) (some loss) (some current) =
      elim (volume_node (profile_before loss bars_15m) config) [
        | none ↦ none
        | some node ↦
            if is_lost_and_retested node tolerance previous loss current
            then some (record { loss_index = loss_index; node = node })
            else none
      ]
  cm2_setup_at bars_15m tolerance config loss_index _ _ _ = none

  -- `_find_cm2_setup`
  unfoldable pub find_cm2_setup :
      List (Kline N) → List (Kline N) → Float → CryptoMicroRuleConfig N → Option (Cm2Setup N)
  find_cm2_setup bars_5m bars_15m atr config =
      let current = length bars_5m - 1 in
      let start = max 1 (current - config.setup_search_bars) in
      if ltb (length bars_5m) 2 || le atr (nought N)
      then none
      else search_down
          (λ (i : ℕ).
            cm2_setup_at bars_15m (mul atr config.retest_tolerance_atr) config i
              (get_elem? bars_5m (i - 1)) (get_elem? bars_5m i) (get_last? bars_5m))
          start (current - start)

  -- Lines 677 to 686, for the mean price of the equal lows.
  unfoldable pub cm3_sweep :
      List (Kline N)
      → Float
      → CryptoMicroRuleConfig N
      → ℕ
      → ℕ
      → Float
      → Kline N
      → Kline N
      → Option (Cm3Setup N)
  cm3_sweep bars atr config current_index sweep_index equal_low sweep_bar current =
      let sweep_low = float sweep_bar.low in
      let reclaim = add equal_low (mul atr config.reclaim_buffer_atr) in
      let swept = lt sweep_low (sub equal_low (mul atr config.minimum_sweep_atr)) in
      let first_reclaim =
        lt reclaim (float current.close)
        && all_of (λ (k : Kline N). le (float k.close) reclaim)
            (slice sweep_index current_index bars) in
      let not_invalidated =
        all_of (λ (k : Kline N). lt sweep_low (float k.close))
          (slice (sweep_index + 1) (current_index + 1) bars) in
      if swept && (first_reclaim && not_invalidated)
      then some (record {
        sweep_index = sweep_index;
        equal_low = equal_low;
        sweep_low = sweep_low;
        atr = atr;
      })
      else none

  abbrev pub mean_price : ConfirmedPivot N × ConfirmedPivot N → Float
  mean_price (a, b) = div (add a.price b.price) (lit 2 0)

  -- The body of the loop of `_find_cm3_setup`, on its two bars, which are in range.
  unfoldable pub cm3_setup_at :
      List (Kline N)
      → List (ConfirmedPivot N)
      → Float
      → CryptoMicroRuleConfig N
      → ℕ
      → ℕ
      → Option (Kline N)
      → Option (Kline N)
      → Option (Cm3Setup N)
  cm3_setup_at bars all_lows atr config current_index sweep_index (some sweep_bar) (some current) =
      elim (latest_equal_low_pair
        (keep (λ (p : ConfirmedPivot N). ltb p.confirmed_index sweep_index) all_lows)
        (mul atr config.equal_low_tolerance_atr)) [
          | none ↦ none
          | some pair ↦
              cm3_sweep bars atr config current_index sweep_index (mean_price pair) sweep_bar
                current
        ]
  cm3_setup_at bars all_lows atr config current_index sweep_index _ _ = none

  -- `_find_cm3_setup`
  unfoldable pub find_cm3_setup :
      List (Kline N) → Float → CryptoMicroRuleConfig N → Option (Cm3Setup N)
  find_cm3_setup bars atr config =
      let current = length bars - 1 in
      let start = current - config.setup_search_bars in
      let all_lows = confirmed_pivots bars low_side config in
      if ltb (length bars) 2 || le atr (nought N)
      then none
      else search_down
          (λ (i : ℕ).
            cm3_setup_at bars all_lows atr config current i (get_elem? bars i) (get_last? bars))
          start (current + 1 - start)
