-- ===== src/Strategies/MicroRules/Tests.antt =====
-- The theorems on the micro rules at the sample inputs.
use protocol_monitor.Common.{
  ℕ, ◌<◌, ◌≡◌, ◌↔◌, refl, true, false, some, none, List, [], ◌∷◌, length, ◌-◌, get_elem?, get_last?,
  any_of, ok,
}
use protocol_monitor.Common.Int.{pos, quot, ◌*ℤ◌, ◌+ℤ◌, ◌-ℤ◌, neg_ℤ}
use protocol_monitor.Numbers.Fixed.{fixed, fixed-IsOrdered}
use protocol_monitor.Market.Kline.{Kline}
use protocol_monitor.Market.Samples.{price}
use protocol_monitor.Indicators.Structure.{detect_structure}
use protocol_monitor.Backtest.Engine.{long, short}
use protocol_monitor.Strategies.MicroRules.{
  passed, not_met, is_insufficient, RuleCondition, required_of, status_of, all_passed, condition,
  cm2, cm3, MicroSignalCandidate, check_config,
}
use protocol_monitor.Strategies.MicroRules.Data.{
  causal_bars, taker_flow, calculate_normalized_taker_flow, oi_washout, calculate_oi_washout,
}
use protocol_monitor.Strategies.MicroRules.Setups.{
  Cm3Setup, low_side, high_side, confirmed_pivots, cm3_setup_at, find_cm3_setup,
}
use protocol_monitor.Strategies.MicroRules.Setups.Found.{IsSweep, find_cm3_setup-IsSweep}
use protocol_monitor.Strategies.MicroRules.Context.{structure_of, confirmed_structure_target}
use protocol_monitor.Strategies.MicroRules.Context.Target.{
  IsNearest, confirmed_structure_target-IsNearest,
}
use protocol_monitor.Strategies.MicroRules.Cm2.{evaluate_cm2_short}
use protocol_monitor.Strategies.MicroRules.Cm2.Candidate.{IsShort, evaluate_cm2_short-IsShort}
use protocol_monitor.Strategies.MicroRules.Cm3.{evaluate_cm3_long}
use protocol_monitor.Strategies.MicroRules.Cm3.Candidate.{IsLong, evaluate_cm3_long-IsLong}
use protocol_monitor.Strategies.MicroRules.Funnel.{status_of-all_passed}
use protocol_monitor.Strategies.MicroRules.Causality.{
  usable_for_short, usable_for_long, evaluate-usable,
}
use protocol_monitor.Strategies.MicroRules.Settings.{check_config-calls}
use protocol_monitor.Strategies.MicroRules.Samples.{
  config, library, short_inputs, long_inputs, swept, points,
}
use protocol_monitor.Strategies.MicroRules.Numeric.{
  search_down, collect_up, floor_to, quantile_from, median_from,
}
use protocol_monitor.Strategies.MicroRules.Data.{
  taker_buy_of, flow_deltas, flow_series_from, normalized_taker_flow_series, normalized_taker_delta,
  causal_oi_points, causal_funding_points, latest_funding, oi_changes, robust_z_of, washout_of,
}
use protocol_monitor.Strategies.MicroRules.Setups.{
  pivot_at, latest_equal_low_pair, fill_bins, volume_node, is_lost_and_retested, cm2_setup_at,
  find_cm2_setup, cm3_sweep,
}
use protocol_monitor.Strategies.MicroRules.Context.{
  is_opposed, btc_opposition, lower_wick_ratio, is_displacement_after, is_bearish_displacement,
  washout_at, washouts_from, oi_washout_near_sweep,
}
use protocol_monitor.Strategies.MicroRules.Cm2
use protocol_monitor.Strategies.MicroRules.Cm3
use protocol_monitor.Indicators.Atr.{true_range, true_ranges, calculate_atr}
use protocol_monitor.Indicators.Structure.{
  window, candidate, new_high, new_low, confirm, resolve, previous_close, advance, series_from,
  detect_structure_series_values, detect_structure_values,
}
use protocol_monitor.Common.{take_last, slice}

abbrev a_short : MicroSignalCandidate fixed
a_short = record {
  strategy = cm2;
  direction = short;
  signal_time = 603_900_000_000;
  available_at = 603_900_000_000;
  stop = pos 144_800;
  target = price 5;
  reason =
      "C-M2: 4h down; profile  lost and failed on retest; 5m bearish CHoCH with taker-CVD non-confirmation";
  risk_fraction = pos 25;
  minimum_rr = pos 15_000;
  max_hold_bars = 576;
}

abbrev a_long : MicroSignalCandidate fixed
a_long = record {
  strategy = cm3;
  direction = long;
  signal_time = 603_600_000_000;
  available_at = 603_600_000_000;
  stop = pos 67_470;
  target = price 15;
  reason =
      "C-M3: confirmed equal lows near  swept and reclaimed; bullish taker-CVD divergence; OI washout";
  risk_fraction = pos 25;
  minimum_rr = pos 15_000;
  max_hold_bars = 576;
}

short_found : (evaluate_cm2_short fixed library short_inputs config).candidate ≡ some a_short
unfolding search_down collect_up quantile_from taker_flow taker_buy_of flow_deltas flow_series_from
    normalized_taker_flow_series causal_funding_points latest_funding pivot_at is_opposed
    btc_opposition true_range true_ranges calculate_atr window candidate new_high new_low confirm
    resolve previous_close advance series_from detect_structure_series_values
    detect_structure_values detect_structure structure_of causal_bars confirmed_pivots
    confirmed_structure_target all_passed take_last quot ◌*ℤ◌ ◌+ℤ◌ ◌-ℤ◌ neg_ℤ slice
    evaluate_cm2_short floor_to fill_bins volume_node is_lost_and_retested cm2_setup_at
    find_cm2_setup normalized_taker_delta Cm2.flow_check Cm2.retest_high Cm2.findings
    Cm2.candidate_with Cm2.candidate_of
short_found = refl

long_found : (evaluate_cm3_long fixed library long_inputs config).candidate ≡ some a_long
unfolding search_down collect_up quantile_from taker_flow taker_buy_of flow_deltas flow_series_from
    normalized_taker_flow_series causal_funding_points latest_funding pivot_at is_opposed
    btc_opposition true_range true_ranges calculate_atr window candidate new_high new_low confirm
    resolve previous_close advance series_from detect_structure_series_values
    detect_structure_values detect_structure structure_of causal_bars confirmed_pivots
    confirmed_structure_target all_passed take_last quot ◌*ℤ◌ ◌+ℤ◌ ◌-ℤ◌ neg_ℤ slice floor_to
    evaluate_cm3_long causal_oi_points oi_changes robust_z_of washout_of median_from
    latest_equal_low_pair cm3_sweep lower_wick_ratio is_displacement_after is_bearish_displacement
    washout_at washouts_from oi_washout_near_sweep Cm3.divergence_check Cm3.findings
    Cm3.candidate_with Cm3.candidate_of oi_washout find_cm3_setup cm3_setup_at
long_found = refl

evaluate_cm2_short-IsShort_example :
    (status_of (evaluate_cm2_short fixed library short_inputs config).conditions ≡ passed)
    × ((k : Kline fixed) × (get_last?
            (causal_bars fixed short_inputs.as_of "5m" short_inputs.eth_5m)
          ≡ some k)
        × IsShort fixed short_inputs.as_of k a_short)
evaluate_cm2_short-IsShort_example =
    evaluate_cm2_short-IsShort fixed library config short_inputs a_short short_found

evaluate_cm3_long-IsLong_example :
    (status_of (evaluate_cm3_long fixed library long_inputs config).conditions ≡ passed)
    × ((k : Kline fixed) × (get_last? (causal_bars fixed long_inputs.as_of "5m" long_inputs.eth_5m)
          ≡ some k)
        × IsLong fixed long_inputs.as_of k a_long)
evaluate_cm3_long-IsLong_example =
    evaluate_cm3_long-IsLong fixed library config long_inputs a_long long_found

abbrev funnel : List RuleCondition
funnel =
    condition "closed_history" (some true) "" true
    ∷ condition "oi_washout" none "" false
    ∷ condition "btc_not_opposed" (some false) "" true
    ∷ []

status_of-all_passed_example :
    ((status_of funnel ≡ passed) ↔ (all_passed funnel ≡ true))
    × (status_of funnel ≡ not_met
        → any_of (λ (c : RuleCondition). is_insufficient c.status) (required_of funnel) ≡ false)
status_of-all_passed_example = status_of-all_passed funnel

evaluate-usable_example :
    (evaluate_cm2_short fixed library (usable_for_short fixed library short_inputs) config
      ≡ evaluate_cm2_short fixed library short_inputs config)
    × (evaluate_cm3_long fixed library (usable_for_long fixed library long_inputs) config
        ≡ evaluate_cm3_long fixed library long_inputs config)
evaluate-usable_example = evaluate-usable fixed library short_inputs long_inputs config

config_passes : check_config fixed config ≡ ok config
unfolding check_config
config_passes = refl

check_config-calls_example :
    (detect_structure fixed swept 120 2 2 ≡ ok (structure_of fixed swept config))
    × (calculate_normalized_taker_flow fixed swept 3 ≡ ok (taker_flow fixed swept 3))
    × (calculate_oi_washout fixed library points 0 8 3 (pos 4_000)
        ≡ ok (oi_washout fixed library points 0 8 3 (pos 4_000)))
check_config-calls_example =
    check_config-calls fixed library config config swept points 0 config_passes

confirmed_structure_target-IsNearest_example :
    ((confirmed_structure_target fixed swept long config).1.status ≡ passed)
    × ((last : Kline fixed) × (get_last? swept ≡ some last)
        × IsNearest fixed fixed-IsOrdered long
            (confirmed_pivots fixed swept high_side config)
            last.close
            (price 15))
unfolding confirmed_structure_target confirmed_pivots collect_up pivot_at slice
confirmed_structure_target-IsNearest_example =
    confirmed_structure_target-IsNearest fixed fixed-IsOrdered swept long config (price 15) refl

abbrev a_sweep : Cm3Setup fixed
a_sweep = record { sweep_index = 11; equal_low = pos 80_250; sweep_low = price 7; atr = pos 20_000 }

find_cm3_setup-IsSweep_example :
    (bar : Kline fixed) × (current : Kline fixed) × (get_elem? swept 11 ≡ some bar)
    × (get_last? swept ≡ some current)
    × IsSweep fixed swept (price 2) config bar current a_sweep
    × ((j : ℕ)
        → 11 < j
        → j < length swept
        → cm3_setup_at fixed swept
            (confirmed_pivots fixed swept low_side config)
            (price 2)
            config
            (length swept - 1)
            j
            (get_elem? swept j)
            (get_last? swept)
          ≡ none)
unfolding confirmed_pivots collect_up pivot_at find_cm3_setup search_down cm3_setup_at cm3_sweep
    latest_equal_low_pair slice ◌-ℤ◌ quot ◌*ℤ◌ ◌+ℤ◌
find_cm3_setup-IsSweep_example = find_cm3_setup-IsSweep fixed swept (price 2) config a_sweep refl
