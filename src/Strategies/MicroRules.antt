-- ===== src/Strategies/MicroRules.antt =====
-- The records of app/strategies/crypto_micro_rules.py: observations, conditions, evaluations and the
-- settings with their checks. A naive datetime counts as UTC there, so a time is compared as it is.
pub mod Numeric
pub mod Data
pub mod Setups
pub mod Context
pub mod Cm2
pub mod Cm3
pub mod Funnel
pub mod Causality
pub mod Settings
pub mod Samples
mod Tests
use protocol_monitor.Common.{
  ℕ, String, Bool, true, false, not, ◌&&◌, ◌||◌, Option, none, some, List, [], ◌∷◌, ◌++◌, Dict,
  keep, any_of, all_of, if◌then◌else◌, ltb, leb, str_eq, Result, ok, err,
}
use protocol_monitor.Numbers.{Numbers, nought}
use protocol_monitor.Market.Kline.{Kline, DateTime}
use protocol_monitor.Signals.Models.{Json}
use protocol_monitor.Backtest.Engine.{Direction}

pub data ConditionStatus : Type 0 where
  passed not_met insufficient : ConditionStatus

pub data StrategyName : Type 0 where
  cm2 cm3 : StrategyName

abbrev pub is_passed : ConditionStatus → Bool
is_passed passed = true
is_passed _ = false

abbrev pub is_not_met : ConditionStatus → Bool
is_not_met not_met = true
is_not_met _ = false

abbrev pub is_insufficient : ConditionStatus → Bool
is_insufficient insufficient = true
is_insufficient _ = false

pub record RuleCondition : Type 0 where
  pub name : String
  pub status : ConditionStatus
  pub detail : String
  pub required : Bool

-- The functions of Python's library that the rules call on floats and datetimes.
pub record Library (N : Numbers) : Type 0 where
  -- `math.log`, `math.isfinite`, `math.inf`
  pub log : N.Float → N.Float
  pub is_finite : N.Float → Bool
  pub inf : N.Float
  -- `f"{x:.8g}"`
  pub format_8g : N.Float → String
  -- `isoformat()`
  pub isoformat : DateTime → String

pub record OpenInterestPoint (N : Numbers) : Type 0 where
  pub observed_at : DateTime
  pub available_at : DateTime
  pub contracts : N.Float

pub record FundingPoint (N : Numbers) : Type 0 where
  pub observed_at : DateTime
  pub available_at : DateTime
  pub rate : N.Float

pub record MicroSignalCandidate (N : Numbers) : Type 0 where
  pub strategy : StrategyName
  pub direction : Direction
  pub signal_time : DateTime
  pub available_at : DateTime
  pub stop : N.Float
  pub target : N.Float
  pub reason : String
  pub risk_fraction : N.Float
  pub minimum_rr : N.Float
  pub max_hold_bars : ℕ

pub record MicroRuleEvaluation (N : Numbers) : Type 0 where
  pub strategy : StrategyName
  pub as_of : DateTime
  pub conditions : List RuleCondition
  pub metrics : Dict (Json N)
  pub candidate : Option (MicroSignalCandidate N)

abbrev pub required_of : List RuleCondition → List RuleCondition
required_of = keep (λ (c : RuleCondition). c.required)

-- `MicroRuleEvaluation.status`, on its conditions.
pub status_of : List RuleCondition → ConditionStatus
status_of conditions =
    if any_of (λ (c : RuleCondition). is_insufficient c.status) (required_of conditions)
    then insufficient
    else if any_of (λ (c : RuleCondition). is_not_met c.status) (required_of conditions)
    then not_met
    else passed

-- `_all_passed`
pub all_passed : List RuleCondition → Bool
all_passed conditions = all_of (λ (c : RuleCondition). is_passed c.status) (required_of conditions)

abbrev pub status_for : Option Bool → ConditionStatus
status_for none = insufficient
status_for (some true) = passed
status_for (some false) = not_met

-- `_condition`
abbrev pub condition : String → Option Bool → String → Bool → RuleCondition
condition name result detail required = record {
  name = name;
  status = status_for result;
  detail = detail;
  required = required;
}

-- `CryptoMicroRuleConfig`
pub record CryptoMicroRuleConfig (N : Numbers) : Type 0 where
  pub atr_period : ℕ
  pub structure_lookback : ℕ
  pub pivot_left : ℕ
  pub pivot_right : ℕ
  pub flow_lookback : ℕ
  pub profile_lookback_15m : ℕ
  pub profile_min_bars : ℕ
  pub profile_bins : ℕ
  pub setup_search_bars : ℕ
  pub retest_tolerance_atr : N.Float
  pub equal_low_tolerance_atr : N.Float
  pub minimum_sweep_atr : N.Float
  pub reclaim_buffer_atr : N.Float
  pub minimum_lower_wick_ratio : N.Float
  pub stop_buffer_atr : N.Float
  pub oi_lookback : ℕ
  pub oi_min_history : ℕ
  pub oi_washout_z : N.Float
  pub lower_quantile : N.Float
  pub upper_quantile : N.Float
  pub crowded_funding_rate : N.Float
  pub minimum_rr : N.Float
  pub max_hold_bars : ℕ
  pub risk_fraction : N.Float
  pub enable_cvd_gate : Bool
  pub enable_oi_gate : Bool
  pub enable_funding_gate : Bool

pub data ConfigError : Type 0 where
  not_positive : List String → ConfigError
  bad_risk bad_quantiles : ConfigError

abbrev pub names_below_1 : List (String × ℕ) → List String
names_below_1 [] = []
names_below_1 ((name, value) ∷ rest) =
    if ltb value 1 then name ∷ names_below_1 rest else names_below_1 rest

module _ (N : Numbers) where
  open N use {lit, lt, le}

  abbrev pub positive_integers : CryptoMicroRuleConfig N → List (String × ℕ)
  positive_integers c =
      ("atr_period", c.atr_period)
      ∷ ("structure_lookback", c.structure_lookback)
      ∷ ("pivot_left", c.pivot_left)
      ∷ ("pivot_right", c.pivot_right)
      ∷ ("flow_lookback", c.flow_lookback)
      ∷ ("profile_lookback_15m", c.profile_lookback_15m)
      ∷ ("profile_min_bars", c.profile_min_bars)
      ∷ ("profile_bins", c.profile_bins)
      ∷ ("setup_search_bars", c.setup_search_bars)
      ∷ ("oi_lookback", c.oi_lookback)
      ∷ ("oi_min_history", c.oi_min_history)
      ∷ ("max_hold_bars", c.max_hold_bars)
      ∷ []

  abbrev pub quantiles_fit : CryptoMicroRuleConfig N → Bool
  quantiles_fit c =
      lt (nought N) c.lower_quantile
      && lt c.lower_quantile (lit 5 1)
      && (lt (lit 5 1) c.upper_quantile && lt c.upper_quantile (lit 1 0))

  abbrev pub check_rest :
      CryptoMicroRuleConfig N → List String → Result ConfigError (CryptoMicroRuleConfig N)
  check_rest c (name ∷ names) = err (not_positive (name ∷ names))
  check_rest c [] =
      if le c.minimum_rr (nought N) || le c.risk_fraction (nought N)
      then err bad_risk
      else if not (quantiles_fit c)
      then err bad_quantiles
      else ok c

  -- `__post_init__`
  pub check_config : CryptoMicroRuleConfig N → Result ConfigError (CryptoMicroRuleConfig N)
  check_config c = check_rest c (names_below_1 (positive_integers c))

  -- The condition and the bar that a usable candle meets in `_causal_bars`.
  abbrev pub is_usable_bar : DateTime → String → Kline N → Bool
  is_usable_bar as_of interval k =
      k.is_closed && (str_eq k.interval interval && leb k.close_time as_of)
