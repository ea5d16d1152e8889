-- ===== src/Strategies/MicroRules/Cm3.antt =====
-- `evaluate_cm3_long`: the long after a sweep of equal lows and their reclaim.
pub mod Candidate
use protocol_monitor.Common.{
  ℕ, zero, suc, ◌+◌, ◌-◌, max, String, digits, Bool, true, false, not, ◌&&◌, ◌||◌, Option, none,
  some, List, [], ◌∷◌, ◌++◌, Dict, map, get_elem?, get_last?, slice, length, ltb, leb,
  if◌then◌else◌,
}
use Prim.Native.String.{◌++◌ as text_append}
use protocol_monitor.Numbers.{Numbers, nought, fmin_from}
use protocol_monitor.Market.Kline.{Kline, DateTime}
use protocol_monitor.Indicators.Atr.{calculate_atr}
use protocol_monitor.Backtest.Engine.{Direction, long}
use protocol_monitor.Signals.Models.{Json, number, text}
use protocol_monitor.Strategies.MicroRules.{
  Library, OpenInterestPoint, FundingPoint, CryptoMicroRuleConfig, RuleCondition, condition, cm3,
  all_passed, MicroSignalCandidate, MicroRuleEvaluation,
}
use protocol_monitor.Strategies.MicroRules.Numeric.{present, quantile_from}
use protocol_monitor.Strategies.MicroRules.Data.{
  OpenInterestWashout, causal_bars, normalized_taker_flow_series, latest_funding,
}
use protocol_monitor.Strategies.MicroRules.Setups.{Cm3Setup, find_cm3_setup, side_value, low_side}
use protocol_monitor.Strategies.MicroRules.Context.{
  confirmed_structure_target, btc_opposition, lower_wick_ratio, is_bearish_displacement,
  oi_washout_near_sweep,
}
use protocol_monitor.Strategies.MicroRules.Cm2.{
  negated, ready_or_none, latest_from, is_given, close_of, funding_metrics, target_metrics,
  funding_time, FlowCheck, no_check,
}

module _ (N : Numbers) where
  open N use {Float, float, sub, mul, lt, le}

  -- The bar of a setup's sweep, which is in range.
  abbrev pub sweep_bar_of : List (Kline N) → Option (Cm3Setup N) → Option (Kline N)
  sweep_bar_of bars none = none
  sweep_bar_of bars (some setup) = get_elem? bars setup.sweep_index

  abbrev pub is_wick_ok :
      CryptoMicroRuleConfig N
      → List (Kline N)
      → Option (Cm3Setup N)
      → Option (Kline N)
      → Option Bool
  is_wick_ok config bars (some setup) (some bar) = some (
      le config.minimum_lower_wick_ratio (lower_wick_ratio N bar)
      && not (is_bearish_displacement N bars setup.sweep_index bar))
  is_wick_ok config bars _ _ = none

  abbrev pub sweep_metrics : Option (Cm3Setup N) → Option (Kline N) → Dict (Json N)
  sweep_metrics (some setup) (some bar) =
      ("equal_low", number setup.equal_low)
      ∷ ("sweep_low", number setup.sweep_low)
      ∷ ("lower_wick_ratio", number (lower_wick_ratio N bar))
      ∷ []
  sweep_metrics _ _ = []

  -- `bool(prior_lows) and sweep_low < min(prior_lows)`
  abbrev pub is_below_all : Float → List Float → Bool
  is_below_all low [] = false
  is_below_all low (x ∷ xs) = lt low (fmin_from N x xs)

  -- Lines 456 to 461, on the flow at the sweep and the flows before it.
  abbrev pub divergence_on :
      CryptoMicroRuleConfig N
      → Float
      → List Float
      → Option (Option Float)
      → List Float
      → FlowCheck N
  divergence_on config sweep_low lows (some (some flow)) (x ∷ xs) =
      let threshold = quantile_from N x xs config.upper_quantile in
      record {
        result = some (is_below_all sweep_low lows && le threshold flow);
        metrics =
            ("normalized_cvd_at_sweep", number flow)
            ∷ ("cvd_upper_quantile", number threshold)
            ∷ [];
      }
  divergence_on config sweep_low lows _ _ = no_check N

  -- Lines 450 to 461.
  unfoldable pub divergence_check :
      List (Kline N) → CryptoMicroRuleConfig N → Option (Cm3Setup N) → FlowCheck N
  divergence_check bars config none = no_check N
  divergence_check bars config (some setup) =
      let series = normalized_taker_flow_series N bars config.flow_lookback in
      let prior_start = setup.sweep_index - config.flow_lookback in
      divergence_on config setup.sweep_low
        (map (side_value N low_side) (slice prior_start setup.sweep_index bars))
        (get_elem? series setup.sweep_index) (present (slice prior_start setup.sweep_index series))

  abbrev pub is_washed_out : CryptoMicroRuleConfig N → Option (OpenInterestWashout N) → Option Bool
  is_washed_out config none = none
  is_washed_out config (some w) =
      some (le w.robust_z config.oi_washout_z && le w.log_change w.historical_lower_quantile)

  abbrev pub is_rate_ok : CryptoMicroRuleConfig N → Option (FundingPoint N) → Option Bool
  is_rate_ok config none = none
  is_rate_ok config (some p) = some (le p.rate config.crowded_funding_rate)

  abbrev pub minimum_bars : CryptoMicroRuleConfig N → ℕ
  minimum_bars config =
      let pivots = config.pivot_left + config.pivot_right + 2 in
      let base = max pivots (config.atr_period + 1) in
      if config.enable_cvd_gate then max base (config.flow_lookback + pivots) else base

  -- What the function is given.
  pub record Inputs : Type 0 where
    pub as_of : DateTime
    pub eth_5m : List (Kline N)
    pub btc_5m : List (Kline N)
    pub open_interest : List (OpenInterestPoint N)
    pub funding : List (FundingPoint N)

  -- What it has computed by line 519.
  pub record Findings : Type 0 where
    pub bars_5m : List (Kline N)
    pub btc_bars : List (Kline N)
    pub setup : Option (Cm3Setup N)
    pub oi_state : Option (OpenInterestWashout N)
    pub target : Option Float
    pub funding_point : Option (FundingPoint N)
    pub conditions : List RuleCondition
    pub metrics : Dict (Json N)

  abbrev pub washout_time : Option (OpenInterestWashout N) → Option DateTime
  washout_time none = none
  washout_time (some w) = some w.available_at

  module _ (L : Library N) where
    abbrev pub washout_metrics : Option (OpenInterestWashout N) → Dict (Json N)
    washout_metrics none = []
    washout_metrics (some w) =
        ("oi_log_change", number w.log_change)
        ∷ ("oi_historical_median", number w.historical_median)
        ∷ ("oi_historical_mad", number w.historical_mad)
        ∷ ("oi_historical_lower_quantile", number w.historical_lower_quantile)
        ∷ ("oi_robust_z", number w.robust_z)
        ∷ ("oi_available_at", text (L.isoformat w.available_at))
        ∷ []

    abbrev pub washout_near :
        Inputs → CryptoMicroRuleConfig N → Option (Kline N) → Option (OpenInterestWashout N)
    washout_near i config none = none
    washout_near i config (some bar) = oi_washout_near_sweep N L i.open_interest i.as_of bar config

    -- Lines 414 to 518.
    unfoldable pub findings : Inputs → CryptoMicroRuleConfig N → Findings
    findings i config =
        let bars_5m = causal_bars N i.as_of "5m" i.eth_5m in
        let btc_bars = causal_bars N i.as_of "5m" i.btc_5m in
        let ready = leb (minimum_bars config) (length bars_5m) in
        let atr = if ready then calculate_atr N bars_5m config.atr_period else nought N in
        let setup = if lt (nought N) atr then find_cm3_setup N bars_5m atr config else none in
        let sweep_bar = sweep_bar_of bars_5m setup in
        let flow = divergence_check bars_5m config setup in
        let oi_state = washout_near i config sweep_bar in
        let opposed = btc_opposition N btc_bars long config in
        let funding_point = latest_funding N L i.as_of i.funding in
        let (target, target_status) = confirmed_structure_target N bars_5m long config in
        record {
          bars_5m = bars_5m;
          btc_bars = btc_bars;
          setup = setup;
          oi_state = oi_state;
          target = target;
          funding_point = funding_point;
          conditions =
              condition "closed_history" (ready_or_none ready)
                (text_append "ETH closed 5m bars=" (digits (length bars_5m))) true
              ∷ condition "equal_low_sweep_reclaim"
                  (if not ready || le atr (nought N) then none else some (is_given setup))
                  "two confirmed pivot lows are swept and the level is reclaimed" true
              ∷ condition "wick_without_displacement" (is_wick_ok config bars_5m setup sweep_bar)
                  "sweep has a lower wick and is not bearish displacement" true
              ∷ condition "bullish_cvd_divergence" flow.result
                  "price lower low is not confirmed by normalized taker CVD" config.enable_cvd_gate
              ∷ condition "oi_washout" (is_washed_out config oi_state)
                  "contract-quantity log change is below its historical median/MAD threshold"
                  config.enable_oi_gate
              ∷ condition "btc_not_opposed" (negated opposed)
                  "BTC is not in a confirmed bearish break with negative taker flow" true
              ∷ condition "funding_not_crowded" (is_rate_ok config funding_point)
                  "long blocked only when settled funding is excessively positive"
                  config.enable_funding_gate
              ∷ target_status
              ∷ [];
          metrics =
              sweep_metrics setup sweep_bar
              ++ (flow.metrics
                  ++ (washout_metrics oi_state
                      ++ (funding_metrics N funding_point ++ target_metrics N target)));
        }

    abbrev pub reason_of : CryptoMicroRuleConfig N → Cm3Setup N → String
    reason_of config setup = text_append "C-M3: confirmed equal lows near " (
        text_append (L.format_8g setup.equal_low) (
          text_append " swept and reclaimed; " (
            text_append (if config.enable_cvd_gate then "bullish taker-CVD divergence; " else "")
              (if config.enable_oi_gate then "OI washout" else "liquidity reversal"))))

    -- Lines 522 to 546.
    unfoldable pub candidate_with :
        CryptoMicroRuleConfig N
        → Findings
        → Cm3Setup N
        → Float
        → Kline N
        → Option (MicroSignalCandidate N)
    candidate_with config f setup target current =
        let stop = sub setup.sweep_low (mul setup.atr config.stop_buffer_atr) in
        if lt stop (float current.close) && lt (float current.close) target
        then some (record {
          strategy = cm3;
          direction = long;
          signal_time = current.close_time;
          available_at = latest_from current.close_time (
              close_of N (get_last? f.btc_bars)
              ∷ washout_time f.oi_state
              ∷ funding_time N f.funding_point
              ∷ []);
          stop = stop;
          target = target;
          reason = reason_of config setup;
          risk_fraction = config.risk_fraction;
          minimum_rr = config.minimum_rr;
          max_hold_bars = config.max_hold_bars;
        })
        else none

    abbrev pub candidate_on :
        CryptoMicroRuleConfig N
        → Findings
        → Option (Cm3Setup N)
        → Option Float
        → Option (Kline N)
        → Option (MicroSignalCandidate N)
    candidate_on config f (some setup) (some target) (some current) =
        candidate_with config f setup target current
    candidate_on config f _ _ _ = none

    -- Lines 520 to 546.
    unfoldable pub candidate_of :
        CryptoMicroRuleConfig N → Findings → Option (MicroSignalCandidate N)
    candidate_of config f =
        if all_passed f.conditions
        then candidate_on config f f.setup f.target (get_last? f.bars_5m)
        else none

    -- `evaluate_cm3_long`
    unfoldable pub evaluate_cm3_long : Inputs → CryptoMicroRuleConfig N → MicroRuleEvaluation N
    evaluate_cm3_long i config =
        let f = findings i config in
        record {
          strategy = cm3;
          as_of = i.as_of;
          conditions = f.conditions;
          metrics = f.metrics;
          candidate = candidate_of config f;
        }
