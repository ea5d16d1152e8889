-- ===== src/Review/Decision/Execution.antt =====
-- `validate_decision`: the checks of a trade against the current price.
pub mod Sound
pub mod Verdict
mod Tests
use protocol_monitor.Common.{
  ℕ, String, Bool, true, false, not, ◌&&◌, ◌||◌, Option, none, some, List, [], ◌∷◌, ◌++◌,
  if◌then◌else◌, Result, ok, err, ◌>>=◌,
}
use protocol_monitor.Numbers.{Numbers, nought, fabs, fmax}
use protocol_monitor.Backtest.Engine.{Direction, long, short}
use protocol_monitor.Review.Decision.{
  LlmDecision, DecisionStatus, trade, no_trade, data_error, ExecutionMode, at_market, at_limit,
  at_stop,
}
use protocol_monitor.Review.Decision.Payload.{Payload, Reader, ReadError, normalize_decision}
use protocol_monitor.Review.Decision.Trade.{
  Argument, ExecutionError, Trade, Arguments, issue_if, is_close, trade_from, trade_of, zone_issues,
  is_ordered, is_further, order_issues, position_issues, execution_price, price_of, is_placed,
  placing_error, price_issues, risk_distance, reward_distance, is_between, rr_at, rr_of, number,
  flag, unreadable, not_positive_finite, zone_reversed, entry_outside, order_broken,
  second_target_broken, position_too_large, price_outside_zone, zone_on_wrong_side,
  entry_not_executable, price_not_between, infinite_risk, rr_too_low,
}

pub data DecisionError : Type 0 where
  unread : ReadError → DecisionError
  refused : List ExecutionError → DecisionError
  -- A TypeError on a field that is None.
  type_error : DecisionError

module _ (N : Numbers) where
  open N use {Float, div, lt, le, round}

  module _ (is_finite : Float → Bool) where
    -- `_positive_finite`
    pub positive_finite : Argument N → Option Float
    positive_finite flag = none
    positive_finite unreadable = none
    positive_finite (number x) = if not (is_finite x) || le x (nought N) then none else some x

    abbrev pub argument_issues : String → Option Float → List ExecutionError
    argument_issues name none = not_positive_finite name ∷ []
    argument_issues name (some x) = []

    abbrev pub low_rr_issues : Option Float → Float → List ExecutionError
    low_rr_issues none rr = []
    low_rr_issues (some minimum) rr = issue_if (lt rr minimum) rr_too_low

    -- Lines 301 to 318.
    pub rr_issues : Trade N → Option Float → Option Float → List ExecutionError
    rr_issues t none minimum = price_not_between t.direction ∷ []
    rr_issues t (some rr) minimum =
        if not (is_finite rr) then infinite_risk ∷ [] else low_rr_issues minimum rr

    abbrev pub market_issues : Trade N → Option Float → Option Float → List ExecutionError
    market_issues t none minimum = []
    market_issues t (some current) minimum =
        price_issues N t current ++ rr_issues t (rr_of N t (some current)) minimum

    -- The list `errors` of line 320, on the current price, the minimum and the maximum.
    abbrev pub errors_with :
        Trade N → Option Float → Option Float → Option Float → List ExecutionError
    errors_with t current minimum maximum =
        argument_issues "current_price" current
        ++ (argument_issues "min_rr" minimum
            ++ (argument_issues "max_position_r" maximum
                ++ (zone_issues N t
                    ++ (order_issues N t
                        ++ (position_issues N t maximum ++ market_issues t current minimum)))))

    pub errors_of : Trade N → Arguments N → List ExecutionError
    errors_of t a =
        errors_with t (positive_finite a.current_price) (positive_finite a.min_rr)
          (positive_finite a.max_position_r)

    abbrev pub with_risk_reward : LlmDecision N → Float → LlmDecision N
    with_risk_reward d rr = record {
      status = d.status;
      timeframe = d.timeframe;
      direction = d.direction;
      execution_mode = d.execution_mode;
      execution_condition = d.execution_condition;
      entry = d.entry;
      entry_zone_low = d.entry_zone_low;
      entry_zone_high = d.entry_zone_high;
      stop_loss = d.stop_loss;
      tp1 = d.tp1;
      tp2 = d.tp2;
      time_stop = d.time_stop;
      position_r = d.position_r;
      protocol_setup = d.protocol_setup;
      score = d.score;
      evidence = d.evidence;
      invalidation = d.invalidation;
      summary = d.summary;
      rejection_reasons = d.rejection_reasons;
      risk_reward = some (round rr 4);
    }

    abbrev pub rated : LlmDecision N → Option Float → Result DecisionError (LlmDecision N)
    rated d none = err type_error
    rated d (some rr) = ok (with_risk_reward d rr)

    abbrev pub if_sound :
        LlmDecision N → List ExecutionError → Option Float → Result DecisionError (LlmDecision N)
    if_sound d (e ∷ es) rr = err (refused (e ∷ es))
    if_sound d [] rr = rated d rr

    abbrev pub check_execution :
        LlmDecision N → Arguments N → Option (Trade N) → Result DecisionError (LlmDecision N)
    check_execution d a none = err type_error
    check_execution d a (some t) =
        if_sound d (errors_of t a) (rr_of N t (positive_finite a.current_price))

    abbrev pub validate_for :
        DecisionStatus → Arguments N → LlmDecision N → Result DecisionError (LlmDecision N)
    validate_for trade a d = check_execution d a (trade_of N d)
    validate_for no_trade a d = ok d
    validate_for data_error a d = ok d

    -- Lines 200 to 324, on the normalized decision.
    pub validate_normalized : Arguments N → LlmDecision N → Result DecisionError (LlmDecision N)
    validate_normalized a d = validate_for d.status a d

    module _ (Raw : Type 0) (R : Reader N Raw) where
      -- `validate_decision`
      unfoldable pub validate_decision :
          Payload Raw → Arguments N → Result DecisionError (LlmDecision N)
      validate_decision payload a = elim (normalize_decision N Raw R payload) [
        | err e ↦ err (unread e)
        | ok d ↦ validate_normalized a d
      ]
