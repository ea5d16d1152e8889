-- ===== src/Strategies/MicroRules/Cm2.antt =====
-- `evaluate_cm2_short`: the short after the loss and the failed retest of a volume node.
pub mod Candidate
use protocol_monitor.Common.{
  ℕ, zero, suc, ◌+◌, ◌-◌, max, String, digits, Bool, true, false, not, ◌&&◌, ◌||◌, Option, none,
  some, List, [], ◌∷◌, ◌++◌, Dict, map, drop, drop_last, get_last?, length, ltb, leb, if◌then◌else◌,
}
use Prim.Native.String.{◌++◌ as text_append}
use protocol_monitor.Numbers.{Numbers, nought, fmax_from}
use protocol_monitor.Market.Kline.{Kline, DateTime}
use protocol_monitor.Indicators.Atr.{calculate_atr}
use protocol_monitor.Indicators.Structure.{StructureState}
use protocol_monitor.Backtest.Engine.{Direction, short}
use protocol_monitor.Signals.Models.{Json, null, int, number, text}
use protocol_monitor.Strategies.MicroRules.{
  Library, FundingPoint, CryptoMicroRuleConfig, RuleCondition, condition, cm2, all_passed,
  MicroSignalCandidate, MicroRuleEvaluation,
}
use protocol_monitor.Strategies.MicroRules.Numeric.{present, quantile_from}
use protocol_monitor.Strategies.MicroRules.Data.{
  causal_bars, normalized_taker_flow_series, normalized_taker_delta, latest_funding,
}
use protocol_monitor.Strategies.MicroRules.Setups.{Cm2Setup, find_cm2_setup, side_value, high_side}
use protocol_monitor.Strategies.MicroRules.Context.{
  trend_name, is_down_trend, structure_of, confirmed_structure_target, btc_opposition,
}

abbrev pub negated : Option Bool → Option Bool
negated none = none
negated (some b) = some (not b)

-- `bars_ready if bars_ready else None`
abbrev pub ready_or_none : Bool → Option Bool
ready_or_none true = some true
ready_or_none false = none

-- `max` of the times that are given, from the first on, as in `_latest_datetime`.
abbrev pub latest_from : DateTime → List (Option DateTime) → DateTime
latest_from t [] = t
latest_from t (none ∷ ts) = latest_from t ts
latest_from t (some u ∷ ts) = latest_from (if ltb t u then u else t) ts

abbrev pub is_given {ℓ} : {A : Type ℓ} → Option A → Bool
is_given none = false
is_given (some a) = true

module _ (N : Numbers) where
  open N use {Float, float, add, mul, neg, lt, le}

  abbrev pub close_of : Option (Kline N) → Option DateTime
  close_of none = none
  close_of (some k) = some k.close_time

  abbrev pub optional_number : Option Float → Json N
  optional_number none = null
  optional_number (some x) = number x

  -- The comparison of the current flow: whether it passes, and its metrics.
  pub record FlowCheck : Type 0 where
    pub result : Option Bool
    pub metrics : Dict (Json N)

  abbrev pub no_check : FlowCheck
  no_check = record { result = none; metrics = [] }

  -- Lines 333 to 340, on the earlier flow and the current one.
  abbrev pub flow_check_on :
      CryptoMicroRuleConfig N → List Float → Option (Option Float) → Option (Kline N) → FlowCheck
  flow_check_on config (x ∷ xs) (some (some current)) (some last) =
      let threshold = quantile_from N x xs config.lower_quantile in
      let delta = normalized_taker_delta N last in
      record {
        result =
            some (le current threshold && elim delta [ none ↦ false | some d ↦ le d (nought N) ]);
        metrics =
            ("normalized_cvd", number current)
            ∷ ("normalized_taker_delta", optional_number delta)
            ∷ ("cvd_lower_quantile", number threshold)
            ∷ [];
      }
  flow_check_on config _ _ _ = no_check

  -- Lines 329 to 340.
  unfoldable pub flow_check :
      List (Kline N) → CryptoMicroRuleConfig N → Option (Cm2Setup N) → FlowCheck
  flow_check bars config none = no_check
  flow_check bars config (some setup) =
      let series = normalized_taker_flow_series N bars config.flow_lookback in
      flow_check_on config (present (drop setup.loss_index (drop_last series))) (get_last? series)
        (get_last? bars)

  -- The greatest high since the loss, and the level, above which the stop stands.
  unfoldable pub retest_high : List (Kline N) → Cm2Setup N → Float
  retest_high bars setup =
      fmax_from N setup.node.level (map (side_value N high_side) (drop setup.loss_index bars))

  -- What the function is given.
  pub record Inputs : Type 0 where
    pub as_of : DateTime
    pub eth_5m : List (Kline N)
    pub eth_15m : List (Kline N)
    pub eth_4h : List (Kline N)
    pub btc_5m : List (Kline N)
    pub funding : List (FundingPoint N)

  -- What it has computed by line 371.
  pub record Findings : Type 0 where
    pub bars_5m : List (Kline N)
    pub bars_15m : List (Kline N)
    pub bars_4h : List (Kline N)
    pub btc_bars : List (Kline N)
    pub atr : Float
    pub setup : Option (Cm2Setup N)
    pub target : Option Float
    pub funding_point : Option (FundingPoint N)
    pub conditions : List RuleCondition
    pub metrics : Dict (Json N)

  abbrev pub structure_if_ready :
      List (Kline N) → CryptoMicroRuleConfig N → Option (StructureState N)
  structure_if_ready bars config =
      if leb (config.pivot_left + config.pivot_right + 2) (length bars)
      then some (structure_of N bars config)
      else none

  abbrev pub trend_is_down : Option (StructureState N) → Option Bool
  trend_is_down none = none
  trend_is_down (some s) = some (is_down_trend s.trend)

  abbrev pub trend_metrics : Option (StructureState N) → Dict (Json N)
  trend_metrics none = []
  trend_metrics (some s) = ("structure_4h", text (trend_name s.trend)) ∷ []

  abbrev pub has_choch_down : Option (StructureState N) → Option Bool
  has_choch_down none = none
  has_choch_down (some s) = some s.choch_down

  abbrev pub is_rate_ok : CryptoMicroRuleConfig N → Option (FundingPoint N) → Option Bool
  is_rate_ok config none = none
  is_rate_ok config (some p) = some (le (neg config.crowded_funding_rate) p.rate)

  abbrev pub funding_metrics : Option (FundingPoint N) → Dict (Json N)
  funding_metrics none = []
  funding_metrics (some p) = ("funding_rate", number p.rate) ∷ []

  abbrev pub target_metrics : Option Float → Dict (Json N)
  target_metrics none = []
  target_metrics (some t) = ("target_swing", number t) ∷ []

  abbrev pub minimum_bars : CryptoMicroRuleConfig N → ℕ
  minimum_bars config =
      let pivots = config.pivot_left + config.pivot_right + 2 in
      if config.enable_cvd_gate then max pivots (config.flow_lookback + 1) else pivots

  abbrev pub funding_time : Option (FundingPoint N) → Option DateTime
  funding_time none = none
  funding_time (some p) = some p.available_at

  module _ (L : Library N) where
    abbrev pub setup_metrics : Option (Cm2Setup N) → Dict (Json N)
    setup_metrics none = []
    setup_metrics (some setup) =
        ("profile_level", number setup.node.level)
        ∷ ("profile_available_at", text (L.isoformat setup.node.available_at))
        ∷ ("loss_bar_index", int setup.loss_index)
        ∷ []

    -- Lines 277 to 370.
    unfoldable pub findings : Inputs → CryptoMicroRuleConfig N → Findings
    findings i config =
        let bars_5m = causal_bars N i.as_of "5m" i.eth_5m in
        let bars_15m = causal_bars N i.as_of "15m" i.eth_15m in
        let bars_4h = causal_bars N i.as_of "4h" i.eth_4h in
        let btc_bars = causal_bars N i.as_of "5m" i.btc_5m in
        let ready =
          leb (minimum_bars config) (length bars_5m)
          && leb config.profile_min_bars (length bars_15m) in
        let structure_4h = structure_if_ready bars_4h config in
        let atr = if ready then calculate_atr N bars_5m config.atr_period else nought N in
        let setup =
          if lt (nought N) atr then find_cm2_setup N bars_5m bars_15m atr config else none in
        let structure_5m = structure_if_ready bars_5m config in
        let flow = flow_check bars_5m config setup in
        let opposed = btc_opposition N btc_bars short config in
        let funding_point = latest_funding N L i.as_of i.funding in
        let (target, target_status) = confirmed_structure_target N bars_5m short config in
        record {
          bars_5m = bars_5m;
          bars_15m = bars_15m;
          bars_4h = bars_4h;
          btc_bars = btc_bars;
          atr = atr;
          setup = setup;
          target = target;
          funding_point = funding_point;
          conditions =
              condition "closed_history" (ready_or_none ready)
                (text_append "ETH closed bars: 5m=" (
                  text_append (digits (length bars_5m))
                    (text_append ", 15m=" (digits (length bars_15m)))))
                true
              ∷ condition "bearish_4h_context" (trend_is_down structure_4h)
                  "4h confirmed structure trend is DOWN" true
              ∷ condition "poc_hvn_loss_and_retest"
                  (if not ready || le atr (nought N) then none else some (is_given setup))
                  "causal profile node lost, then retested from below" true
              ∷ condition "bearish_5m_choch" (has_choch_down structure_5m)
                  "latest closed 5m bar confirms bearish CHoCH" true
              ∷ condition "cvd_no_follow" flow.result
                  "retest has no normalized taker-CVD high and current delta is non-positive"
                  config.enable_cvd_gate
              ∷ condition "btc_not_opposed" (negated opposed)
                  "BTC is not in a confirmed bullish break with positive taker flow" true
              ∷ condition "funding_not_crowded" (is_rate_ok config funding_point)
                  "short blocked only when settled funding is excessively negative"
                  config.enable_funding_gate
              ∷ target_status
              ∷ [];
          metrics =
              trend_metrics structure_4h
              ++ (setup_metrics setup
                  ++ (flow.metrics ++ (funding_metrics funding_point ++ target_metrics target)));
        }

    abbrev pub reason_of : CryptoMicroRuleConfig N → Cm2Setup N → String
    reason_of config setup = text_append "C-M2: 4h down; profile " (
        text_append (L.format_8g setup.node.level) (
          text_append " lost and failed on retest; 5m bearish CHoCH"
            (if config.enable_cvd_gate then " with taker-CVD non-confirmation" else "")))

    -- Lines 374 to 400.
    unfoldable pub candidate_with :
        CryptoMicroRuleConfig N
        → Findings
        → Cm2Setup N
        → Float
        → Kline N
        → Option (MicroSignalCandidate N)
    candidate_with config f setup target current =
        let stop = add (retest_high f.bars_5m setup) (mul f.atr config.stop_buffer_atr) in
        if lt (float current.close) stop && lt target (float current.close)
        then some (record {
          strategy = cm2;
          direction = short;
          signal_time = current.close_time;
          available_at = latest_from current.close_time (
              close_of (get_last? f.bars_15m)
              ∷ close_of (get_last? f.bars_4h)
              ∷ close_of (get_last? f.btc_bars)
              ∷ some setup.node.available_at
              ∷ funding_time f.funding_point
              ∷ []);
          stop = stop;
          target = target;
          reason = reason_of config setup;
          risk_fraction = config.risk_fraction;
          minimum_rr = config.minimum_rr;
          max_hold_bars = config.max_hold_bars;
        })
        else none

    abbrev pub candidate_on :
        CryptoMicroRuleConfig N
        → Findings
        → Option (Cm2Setup N)
        → Option Float
        → Option (Kline N)
        → Option (MicroSignalCandidate N)
    candidate_on config f (some setup) (some target) (some current) =
        candidate_with config f setup target current
    candidate_on config f _ _ _ = none

    -- Lines 372 to 400.
    unfoldable pub candidate_of :
        CryptoMicroRuleConfig N → Findings → Option (MicroSignalCandidate N)
    candidate_of config f =
        if all_passed f.conditions
        then candidate_on config f f.setup f.target (get_last? f.bars_5m)
        else none

    -- `evaluate_cm2_short`
    unfoldable pub evaluate_cm2_short : Inputs → CryptoMicroRuleConfig N → MicroRuleEvaluation N
    evaluate_cm2_short i config =
        let f = findings i config in
        record {
          strategy = cm2;
          as_of = i.as_of;
          conditions = f.conditions;
          metrics = f.metrics;
          candidate = candidate_of config f;
        }
