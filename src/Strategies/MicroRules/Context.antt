-- ===== src/Strategies/MicroRules/Context.antt =====
-- What both rules read beside their setups: structure targets, the opposition of BTC, the washout
-- near a sweep, and the shape of the sweep bar.
pub mod Washout
pub mod Target
use protocol_monitor.Common.{
  ℕ, zero, suc, ◌+◌, ◌-◌, max, String, Bool, true, false, not, ◌&&◌, ◌||◌, Option, none, some, List,
  [], ◌∷◌, map, keep, take, drop, get_last?, slice, length, ltb, leb, if◌then◌else◌, Result, ok,
  err,
}
use Prim.Native.String.{◌++◌ as text_append}
use protocol_monitor.Numbers.{Numbers, nought, fmax, fmax_from, fmin_from, fabs, fsum}
use protocol_monitor.Market.Kline.{Kline, DateTime}
use protocol_monitor.Indicators.Structure.{
  Trend, up, down, range, StructureState, empty_state, detect_structure,
}
use protocol_monitor.Backtest.Engine.{Direction, long, short}
use protocol_monitor.Strategies.MicroRules.{
  Library, OpenInterestPoint, CryptoMicroRuleConfig, RuleCondition, condition,
}
use protocol_monitor.Strategies.MicroRules.Data.{
  TakerFlowState, OpenInterestWashout, taker_flow, causal_oi_points, oi_washout,
}
use protocol_monitor.Strategies.MicroRules.Setups.{
  Side, high_side, low_side, ConfirmedPivot, confirmed_pivots, Cm3Setup,
}

abbrev pub trend_name : Trend → String
trend_name up = "UP"
trend_name down = "DOWN"
trend_name range = "RANGE"

abbrev pub is_up_trend : Trend → Bool
is_up_trend up = true
is_up_trend _ = false

abbrev pub is_down_trend : Trend → Bool
is_down_trend down = true
is_down_trend _ = false

module _ (N : Numbers) where
  open N use {Float, Decimal, float, lit, add, sub, mul, div, lt, le, dec_sub, dec_lt}

  abbrev pub state_or_empty : {E : Type 0} → Result E (StructureState N) → StructureState N
  state_or_empty (ok s) = s
  state_or_empty (err e) = empty_state N

  -- `detect_structure` with the settings' pivots, which are positive, so that it does not raise.
  unfoldable pub structure_of : List (Kline N) → CryptoMicroRuleConfig N → StructureState N
  structure_of bars config =
      state_or_empty
        (detect_structure N bars config.structure_lookback config.pivot_left config.pivot_right)

  -- `min(x, *xs)` or `max(x, *xs)` of the prices beyond the close.
  abbrev pub nearest : Direction → List Float → Option Float
  nearest direction [] = none
  nearest long (x ∷ xs) = some (fmin_from N x xs)
  nearest short (x ∷ xs) = some (fmax_from N x xs)

  abbrev pub is_beyond : Direction → Float → Float → Bool
  is_beyond long close price = lt close price
  is_beyond short close price = lt price close

  abbrev pub side_of : Direction → Side
  side_of long = high_side
  side_of short = low_side

  abbrev pub side_name : Side → String
  side_name high_side = "high"
  side_name low_side = "low"

  abbrev pub prices : List (ConfirmedPivot N) → List Float
  prices = map (λ (p : ConfirmedPivot N). p.price)

  abbrev pub target_condition : Option Bool → String → RuleCondition
  target_condition result detail = condition "confirmed_structure_target" result detail true

  abbrev pub target_among :
      Direction → List (ConfirmedPivot N) → Float → Option Float × RuleCondition
  target_among direction [] close = (
    none,
    target_condition none (text_append "no confirmed 5m swing " (side_name (side_of direction))),
  )
  target_among direction (p ∷ ps) close =
      elim (nearest direction (keep (is_beyond direction close) (prices (p ∷ ps)))) [
        | none ↦ (
          none,
          target_condition (some false) "confirmed swings exist, but none are beyond current price",
        )
        | some target ↦
            (some target, target_condition (some true) "target is the nearest confirmed 5m swing")
      ]

  -- `_confirmed_structure_target`
  unfoldable pub confirmed_structure_target :
      List (Kline N) → Direction → CryptoMicroRuleConfig N → Option Float × RuleCondition
  confirmed_structure_target bars direction config = elim (get_last? bars) [
    | none ↦ (none, target_condition none "no closed 5m bars")
    | some last ↦
        target_among direction (confirmed_pivots N bars (side_of direction) config)
          (float last.close)
  ]

  -- Lines 760 to 763.
  unfoldable pub is_opposed :
      Direction → StructureState N → Float → Float → Float → TakerFlowState N → Bool
  is_opposed short structure high low close flow =
      is_up_trend structure.trend && (lt high close && lt (nought N) flow.normalized_delta)
  is_opposed long structure high low close flow =
      is_down_trend structure.trend && (lt close low && lt flow.normalized_delta (nought N))

  abbrev pub opposition_with :
      Direction
      → StructureState N
      → Option Float
      → Option Float
      → Option (Kline N)
      → Option (TakerFlowState N)
      → Option Bool
  opposition_with direction structure (some high) (some low) (some last) (some flow) =
      if structure.swing_high_confirmed && structure.swing_low_confirmed
      then some (is_opposed direction structure high low (float last.close) flow)
      else none
  opposition_with direction structure _ _ _ _ = none

  -- `_btc_opposition`
  unfoldable pub btc_opposition : List (Kline N) → Direction → CryptoMicroRuleConfig N → Option Bool
  btc_opposition bars direction config =
      let structure = structure_of bars config in
      if ltb (length bars) (max config.flow_lookback (config.pivot_left + config.pivot_right + 2))
      then none
      else opposition_with direction structure structure.last_swing_high structure.last_swing_low
          (get_last? bars) (taker_flow N bars config.flow_lookback)

  -- `_lower_wick_ratio`
  unfoldable pub lower_wick_ratio : Kline N → Float
  lower_wick_ratio k =
      let full_range = fmax N (float (dec_sub k.high k.low)) (lit 1 12) in
      let body_low = if dec_lt k.close k.open_price then k.close else k.open_price in
      div (float (dec_sub body_low k.low)) full_range

  -- Lines 813 to 825, for a history that is not too short.
  unfoldable pub is_displacement_after : List (Kline N) → Kline N → Bool
  is_displacement_after history k =
      let size = lit (length history) 0 in
      let average_range =
        div (fsum N (map (λ (b : Kline N). float (dec_sub b.high b.low)) history)) size in
      let average_volume = div (fsum N (map (λ (b : Kline N). float b.volume) history)) size in
      let full_range = fmax N (float (dec_sub k.high k.low)) (lit 1 12) in
      let body_ratio = div (fabs N (float (dec_sub k.close k.open_price))) full_range in
      let close_position = div (float (dec_sub k.close k.low)) full_range in
      dec_lt k.close k.open_price
      && (le (mul average_range (lit 115 2)) full_range
          && (le (mul average_volume (lit 105 2)) (float k.volume)
              && (le (lit 55 2) body_ratio && le close_position (lit 30 2))))

  -- `_is_bearish_displacement` of the bar at `index`.
  unfoldable pub is_bearish_displacement : List (Kline N) → ℕ → Kline N → Bool
  is_bearish_displacement bars index k =
      let history = slice (index - 20) index bars in
      if ltb (length history) 5 then false else is_displacement_after history k

  -- `min(candidates, key=robust_z)`: the first of the least.
  abbrev pub least_from :
      OpenInterestWashout N → List (OpenInterestWashout N) → OpenInterestWashout N
  least_from best [] = best
  least_from best (w ∷ ws) = least_from (if lt w.robust_z best.robust_z then w else best) ws

  abbrev pub least_washout : List (OpenInterestWashout N) → Option (OpenInterestWashout N)
  least_washout [] = none
  least_washout (w ∷ ws) = some (least_from w ws)

  module _ (L : Library N) where
    -- The body of the loop of `_oi_washout_near_sweep`, for the point at `index`.
    unfoldable pub washout_at :
        List (OpenInterestPoint N)
        → DateTime
        → CryptoMicroRuleConfig N
        → ℕ
        → OpenInterestPoint N
        → Option (OpenInterestWashout N)
    washout_at causal cutoff config index point =
        if ltb point.observed_at cutoff
        then none
        else oi_washout N L (take (index + 1) causal) point.available_at config.oi_lookback
            config.oi_min_history config.lower_quantile

    unfoldable pub washouts_from :
        List (OpenInterestPoint N)
        → DateTime
        → CryptoMicroRuleConfig N
        → ℕ
        → List (OpenInterestPoint N)
        → List (OpenInterestWashout N)
    washouts_from causal cutoff config index [] = []
    washouts_from causal cutoff config index (p ∷ ps) =
        elim (washout_at causal cutoff config index p) [
          | none ↦ washouts_from causal cutoff config (suc index) ps
          | some w ↦ w ∷ washouts_from causal cutoff config (suc index) ps
        ]

    -- `_oi_washout_near_sweep`, for a setup whose sweep bar is given.
    unfoldable pub oi_washout_near_sweep :
        List (OpenInterestPoint N)
        → DateTime
        → Kline N
        → CryptoMicroRuleConfig N
        → Option (OpenInterestWashout N)
    oi_washout_near_sweep points as_of sweep_bar config =
        let causal = causal_oi_points N L as_of points in
        least_washout (washouts_from causal sweep_bar.open_time config 0 causal)
