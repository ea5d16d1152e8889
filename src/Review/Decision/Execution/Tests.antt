-- ===== src/Review/Decision/Execution/Tests.antt =====
-- The theorems on decisions at a long that is accepted and a refusal.
use protocol_monitor.Common.{◌≡◌, ◌≢◌, refl, true, none, some, [], ◌∷◌, ok, err}
use protocol_monitor.Common.Int.{quot, ◌*ℤ◌, ◌+ℤ◌, ◌-ℤ◌, neg_ℤ, pos, ℤ}
use protocol_monitor.Common.Upper.{casefold, upper}
use protocol_monitor.Numbers.Fixed.{fixed}
use protocol_monitor.Market.Samples.{price}
use protocol_monitor.Backtest.Engine.{long}
use protocol_monitor.Review.Decision.{
  LlmDecision, trade, no_trade, four_hours, at_limit, validate_status_contract, check_fields_empty,
  check_definitive, check_trade,
}
use protocol_monitor.Review.Decision.Contract.{Meets, validate_status_contract-Meets}
use protocol_monitor.Review.Decision.Payload.{mapping, Reader, normalize_decision, parse_payload}
use protocol_monitor.Review.Decision.Trade.{
  number, Arguments, trade_of, zone_issues, order_issues, position_issues, price_issues, rr_at,
  rr_of,
}
use protocol_monitor.Review.Decision.Execution.{
  type_error, validate_decision, with_risk_reward, errors_of, positive_finite, rr_issues,
  validate_normalized,
}
use protocol_monitor.Review.Decision.Execution.Verdict.{
  Verdict, validate_decision-no_type_error, validate_decision-Verdict,
}

abbrev a_trade : LlmDecision fixed
a_trade = record {
  status = trade;
  timeframe = some four_hours;
  direction = some long;
  execution_mode = some at_limit;
  execution_condition = some "4h close above 100";
  entry = some (price 100);
  entry_zone_low = some (price 98);
  entry_zone_high = some (price 100);
  stop_loss = some (price 95);
  tp1 = some (price 110);
  tp2 = some (price 120);
  time_stop = some "48h";
  position_r = some (price 1);
  protocol_setup = some "retest";
  score = some (price 80);
  evidence = "rvol 2" ∷ "cvd +3" ∷ "atr 14" ∷ [];
  invalidation = some "close below 95";
  summary = some "retest of 100";
  rejection_reasons = [];
  risk_reward = none;
}

-- It gives a decision for every object.
abbrev reader : Reader fixed ℤ
reader = record {
  fence_body = λ s. none;
  loads = λ s. err (record { line = 1; column = 1; message = "" });
  validate_fields = λ fields. ok a_trade;
}

abbrev arguments : Arguments fixed
arguments = record {
  current_price = number (price 104);
  min_rr = number (pos 15_000);
  max_position_r = number (pos 15_000);
}

abbrev accepted : LlmDecision fixed
accepted = with_risk_reward fixed (λ x. true) a_trade (price 2)

accepted_run : validate_decision fixed (λ x. true) ℤ reader (mapping []) arguments ≡ ok accepted
unfolding validate_decision normalize_decision parse_payload validate_status_contract check_trade
    validate_normalized trade_of errors_of positive_finite zone_issues order_issues position_issues
    price_issues rr_at rr_of rr_issues upper quot ◌*ℤ◌ ◌+ℤ◌ ◌-ℤ◌ neg_ℤ
accepted_run = refl

validate_decision-Verdict_example : Verdict fixed (λ x. true) trade arguments accepted
validate_decision-Verdict_example =
    validate_decision-Verdict fixed (λ x. true) ℤ reader (mapping []) arguments accepted
      accepted_run

validate_decision-no_type_error_example :
    validate_decision fixed (λ x. true) ℤ reader (mapping []) arguments ≢ err type_error
validate_decision-no_type_error_example =
    validate_decision-no_type_error fixed (λ x. true) ℤ reader (mapping []) arguments

abbrev a_refusal : LlmDecision fixed
a_refusal = record {
  status = no_trade;
  timeframe = none;
  direction = none;
  execution_mode = none;
  execution_condition = none;
  entry = none;
  entry_zone_low = none;
  entry_zone_high = none;
  stop_loss = none;
  tp1 = none;
  tp2 = none;
  time_stop = none;
  position_r = none;
  protocol_setup = none;
  score = none;
  evidence = [];
  invalidation = none;
  summary = some "range";
  rejection_reasons = "no break of 100" ∷ [];
  risk_reward = none;
}

refusal_run : validate_status_contract fixed a_refusal ≡ ok a_refusal
unfolding validate_status_contract check_fields_empty check_definitive casefold
refusal_run = refl

validate_status_contract-Meets_example : (a_refusal ≡ a_refusal) × Meets fixed no_trade a_refusal
validate_status_contract-Meets_example =
    validate_status_contract-Meets fixed a_refusal a_refusal refusal_run
