-- ===== src/Strategies/MicroRules/Data.antt =====
-- What was usable at a time, and the order flow and open interest computed from it.
pub mod Usable
use protocol_monitor.Common.{
  String, ℕ, zero, suc, ◌+◌, ◌-◌, Bool, true, false, not, ◌&&◌, ◌||◌, Option, none, some, List, [],
  ◌∷◌, map, keep, take, take_last, drop_last, get_last?, length, ltb, leb, ◌==◌, if◌then◌else◌,
  Result, ok, err,
}
use protocol_monitor.Numbers.{Numbers, nought, fabs, fsum}
use protocol_monitor.Market.Kline.{Kline, DateTime}
use protocol_monitor.Strategies.MicroRules.{
  Library, OpenInterestPoint, FundingPoint, CryptoMicroRuleConfig, is_usable_bar,
}
use protocol_monitor.Strategies.MicroRules.Numeric.{sorted_by, quantile_from, median_from, is_close}

-- Two keys in the order of tuples.
abbrev pub pair_before : ℕ → ℕ → ℕ → ℕ → Bool
pair_before a b c d = ltb a c || (a == c && ltb b d)

pub record TakerFlowState (N : Numbers) : Type 0 where
  pub normalized_cvd : N.Float
  pub normalized_delta : N.Float
  pub available_at : DateTime

pub record OpenInterestWashout (N : Numbers) : Type 0 where
  pub log_change : N.Float
  pub historical_median : N.Float
  pub historical_mad : N.Float
  pub historical_lower_quantile : N.Float
  pub robust_z : N.Float
  pub observed_at : DateTime
  pub available_at : DateTime

pub data DataError : Type 0 where
  bad_lookback bad_quantile : DataError

module _ (N : Numbers) where
  open N use {Float, float, lit, add, sub, mul, div, neg, lt, le, eq}

  abbrev pub bar_before : Kline N → Kline N → Bool
  bar_before a b = pair_before a.close_time a.open_time b.close_time b.open_time

  -- `_causal_bars`
  unfoldable pub causal_bars : DateTime → String → List (Kline N) → List (Kline N)
  causal_bars as_of interval candles =
      sorted_by bar_before (keep (is_usable_bar N as_of interval) candles)

  -- The taker buys of a candle, unless they are missing or out of range.
  unfoldable pub taker_buy_of : Kline N → Option Float
  taker_buy_of candle =
      if le (float candle.volume) (nought N) then none else elim candle.taker_buy_volume [
        | none ↦ none
        | some bought ↦
            if lt (float bought) (nought N) || lt (float candle.volume) (float bought)
            then none
            else some (float bought)
      ]

  -- The loop of lines 198 to 206: the deltas and the total volume, from the volume so far.
  unfoldable pub flow_deltas : List (Kline N) → Float → Option (List Float × Float)
  flow_deltas [] total = some ([], total)
  flow_deltas (candle ∷ rest) total = elim (taker_buy_of candle) [
    | none ↦ none
    | some bought ↦ elim (flow_deltas rest (add total (float candle.volume))) [
      | none ↦ none
      | some (deltas, final) ↦
          some (sub (mul (lit 2 0) bought) (float candle.volume) ∷ deltas, final)
    ]
  ]

  abbrev pub flow_state : Option (Kline N) → Option (List Float × Float) → Option (TakerFlowState N)
  flow_state (some last) (some (d ∷ ds, total)) =
      if le total (nought N) then none else elim (get_last? (d ∷ ds)) [
        | none ↦ none
        | some delta ↦ some (record {
          normalized_cvd = div (fsum N (d ∷ ds)) total;
          normalized_delta = div delta (float last.volume);
          available_at = last.close_time;
        })
      ]
  flow_state _ _ = none

  -- `calculate_normalized_taker_flow`, after the check of its lookback.
  unfoldable pub taker_flow : List (Kline N) → ℕ → Option (TakerFlowState N)
  taker_flow candles lookback =
      if ltb (length candles) lookback
      then none
      else flow_state (get_last? (take_last lookback candles))
          (flow_deltas (take_last lookback candles) (nought N))

  -- `calculate_normalized_taker_flow`
  unfoldable pub calculate_normalized_taker_flow :
      List (Kline N) → ℕ → Result DataError (Option (TakerFlowState N))
  calculate_normalized_taker_flow candles lookback =
      if ltb lookback 1 then err bad_lookback else ok (taker_flow candles lookback)

  abbrev pub cvd_of_flow : Option (TakerFlowState N) → Option Float
  cvd_of_flow none = none
  cvd_of_flow (some state) = some state.normalized_cvd

  -- The loop of `_normalized_taker_flow_series`, with the prefixes left, from the prefix at `end`.
  unfoldable pub flow_series_from : List (Kline N) → ℕ → ℕ → ℕ → List (Option Float)
  flow_series_from candles lookback end zero = []
  flow_series_from candles lookback end (suc rounds) =
      cvd_of_flow (taker_flow (take end candles) lookback)
      ∷ flow_series_from candles lookback (suc end) rounds

  -- `_normalized_taker_flow_series`
  unfoldable pub normalized_taker_flow_series : List (Kline N) → ℕ → List (Option Float)
  normalized_taker_flow_series candles lookback =
      flow_series_from candles lookback 1 (length candles)

  -- `_normalized_taker_delta`
  unfoldable pub normalized_taker_delta : Kline N → Option Float
  normalized_taker_delta candle = elim (taker_buy_of candle) [
    | none ↦ none
    | some bought ↦
        some (div (sub (mul (lit 2 0) bought) (float candle.volume)) (float candle.volume))
  ]

  module _ (L : Library N) where
    abbrev pub is_usable_oi : DateTime → OpenInterestPoint N → Bool
    is_usable_oi as_of p =
        leb p.observed_at as_of && (leb p.available_at as_of && L.is_finite p.contracts)

    -- `_causal_oi_points`
    unfoldable pub causal_oi_points :
        DateTime → List (OpenInterestPoint N) → List (OpenInterestPoint N)
    causal_oi_points as_of points =
        sorted_by
          (λ (a b : OpenInterestPoint N).
            pair_before a.observed_at a.available_at b.observed_at b.available_at)
          (keep (is_usable_oi as_of) points)

    abbrev pub is_usable_funding : DateTime → FundingPoint N → Bool
    is_usable_funding as_of p =
        leb p.observed_at as_of && (leb p.available_at as_of && L.is_finite p.rate)

    -- `_causal_funding_points`
    unfoldable pub causal_funding_points : DateTime → List (FundingPoint N) → List (FundingPoint N)
    causal_funding_points as_of points =
        sorted_by
          (λ (a b : FundingPoint N).
            pair_before a.observed_at a.available_at b.observed_at b.available_at)
          (keep (is_usable_funding as_of) points)

    -- `_latest_funding_rate` and `_latest_funding_available_at` read the fields of this point.
    unfoldable pub latest_funding : DateTime → List (FundingPoint N) → Option (FundingPoint N)
    latest_funding as_of points = get_last? (causal_funding_points as_of points)

    -- The loop of lines 236 to 239.
    unfoldable pub oi_changes : List (OpenInterestPoint N) → List (OpenInterestPoint N × Float)
    oi_changes [] = []
    oi_changes (a ∷ []) = []
    oi_changes (a ∷ b ∷ rest) =
        if le a.contracts (nought N) || le b.contracts (nought N)
        then oi_changes (b ∷ rest)
        else (b, L.log (div b.contracts a.contracts)) ∷ oi_changes (b ∷ rest)

    -- Lines 246 to 254.
    unfoldable pub robust_z_of : Float → Float → Float → Float
    robust_z_of current center mad =
        if is_close N mad (nought N)
        then (if is_close N current center
            then nought N
            else if lt (sub current center) (nought N)
            then neg L.inf
            else L.inf)
        else div (sub current center) (mul (lit 14_826 4) mad)

    -- Lines 246 to 263, for the history `x ∷ xs`.
    unfoldable pub washout_of :
        OpenInterestPoint N × Float → Float → List Float → Float → OpenInterestWashout N
    washout_of (point, change) x xs lower_quantile =
        let center = median_from N x xs in
        let away = λ (c : Float). fabs N (sub c center) in
        let mad = median_from N (away x) (map away xs) in
        record {
          log_change = change;
          historical_median = center;
          historical_mad = mad;
          historical_lower_quantile = quantile_from N x xs lower_quantile;
          robust_z = robust_z_of change center mad;
          observed_at = point.observed_at;
          available_at = point.available_at;
        }

    abbrev pub washout_with :
        Option (OpenInterestPoint N × Float)
        → List Float
        → ℕ
        → Float
        → Option (OpenInterestWashout N)
    washout_with (some current) (x ∷ xs) minimum_history lower_quantile =
        if ltb (length (x ∷ xs)) minimum_history
        then none
        else some (washout_of current x xs lower_quantile)
    washout_with _ _ minimum_history lower_quantile = none

    -- `calculate_oi_washout`, after the checks of its arguments; `minimum_history` is positive.
    unfoldable pub oi_washout :
        List (OpenInterestPoint N) → DateTime → ℕ → ℕ → Float → Option (OpenInterestWashout N)
    oi_washout points as_of lookback minimum_history lower_quantile =
        let changes = oi_changes (causal_oi_points as_of points) in
        if leb (length changes) minimum_history
        then none
        else washout_with (get_last? changes)
            (map (λ (c : OpenInterestPoint N × Float). c.1)
              (drop_last (take_last (lookback + 1) changes)))
            minimum_history lower_quantile

    -- `calculate_oi_washout`
    unfoldable pub calculate_oi_washout :
        List (OpenInterestPoint N)
        → DateTime
        → ℕ
        → ℕ
        → Float
        → Result DataError (Option (OpenInterestWashout N))
    calculate_oi_washout points as_of lookback minimum_history lower_quantile =
        if ltb lookback 1 || ltb minimum_history 1
        then err bad_lookback
        else if not (lt (nought N) lower_quantile && lt lower_quantile (lit 5 1))
        then err bad_quantile
        else ok (oi_washout points as_of lookback minimum_history lower_quantile)
