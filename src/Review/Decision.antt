-- ===== src/Review/Decision.antt =====
-- The record, the field constraints and the status contract of app/review/llm_decision.py. The
-- fields that are typed by the source are typed here; an error message is a constructor with what
-- the message names.
pub mod Contract
pub mod Payload
pub mod Trade
pub mod Execution
use protocol_monitor.Common.{
  ℕ, String, Bool, true, false, not, ◌&&◌, ◌||◌, Option, none, some, List, [], ◌∷◌, ◌++◌, keep, map,
  any_of, all_of, length, leb, ◌==◌, mem_text, if◌then◌else◌, Result, ok, err, ◌>>=◌, raise_first,
}
use protocol_monitor.Common.Upper.{casefold}
use protocol_monitor.Common.Search.{has_digit, contains, join}
use protocol_monitor.Numbers.{Numbers, nought}
use protocol_monitor.Backtest.Engine.{Direction}

pub data DecisionStatus : Type 0 where
  trade no_trade data_error : DecisionStatus

pub data DecisionTimeframe : Type 0 where
  one_hour four_hours day : DecisionTimeframe

pub data ExecutionMode : Type 0 where
  at_market at_limit at_stop : ExecutionMode

pub record LlmDecision (N : Numbers) : Type 0 where
  pub status : DecisionStatus
  pub timeframe : Option DecisionTimeframe
  pub direction : Option Direction
  pub execution_mode : Option ExecutionMode
  pub execution_condition : Option String
  pub entry : Option N.Float
  pub entry_zone_low : Option N.Float
  pub entry_zone_high : Option N.Float
  pub stop_loss : Option N.Float
  pub tp1 : Option N.Float
  pub tp2 : Option N.Float
  pub time_stop : Option String
  pub position_r : Option N.Float
  pub protocol_setup : Option String
  pub score : Option N.Float
  pub evidence : List String
  pub invalidation : Option String
  pub summary : Option String
  pub rejection_reasons : List String
  pub risk_reward : Option N.Float

pub data ContractError : Type 0 where
  missing_fields : List String → ContractError
  evidence_count evidence_repeated evidence_without_number : ContractError
  fields_without_number : List String → ContractError
  trade_with_rejections : ContractError
  populated_fields : DecisionStatus → List String → ContractError
  no_summary no_rejections : DecisionStatus → ContractError
  ambiguous : List String → ContractError

abbrev pub is_present {ℓ} : {A : Type ℓ} → Option A → Bool
is_present none = false
is_present (some a) = true

abbrev pub is_empty {ℓ} : {A : Type ℓ} → List A → Bool
is_empty [] = true
is_empty (x ∷ xs) = false

-- The names that stand with `true`.
abbrev pub names_of : List (String × Bool) → List String
names_of [] = []
names_of ((name, b) ∷ rest) = if b then name ∷ names_of rest else names_of rest

-- `set(texts)`
abbrev pub distinct : List String → List String
distinct [] = []
distinct (s ∷ ss) = if mem_text s ss then distinct ss else s ∷ distinct ss

-- A text that is given and has no digit.
abbrev pub lacks_number : Option String → Bool
lacks_number none = false
lacks_number (some s) = not (has_digit s)

abbrev pub or_empty : Option String → String
or_empty none = ""
or_empty (some s) = s

abbrev pub ambiguous_terms : List String
ambiguous_terms =
    "等待确认" ∷ "等待" ∷ "关注" ∷ "观察" ∷ "wait for confirmation" ∷ "waiting" ∷ "wait and see" ∷ "watch"
    ∷ "monitor" ∷ []

module _ (N : Numbers) where
  open N use {Float, lit, lt, le}

  -- The required fields of a trade that are None.
  abbrev pub required_fields : LlmDecision N → List (String × Bool)
  required_fields d =
      ("timeframe", not (is_present d.timeframe))
      ∷ ("direction", not (is_present d.direction))
      ∷ ("execution_mode", not (is_present d.execution_mode))
      ∷ ("execution_condition", not (is_present d.execution_condition))
      ∷ ("entry", not (is_present d.entry))
      ∷ ("entry_zone_low", not (is_present d.entry_zone_low))
      ∷ ("entry_zone_high", not (is_present d.entry_zone_high))
      ∷ ("stop_loss", not (is_present d.stop_loss))
      ∷ ("tp1", not (is_present d.tp1))
      ∷ ("time_stop", not (is_present d.time_stop))
      ∷ ("position_r", not (is_present d.position_r))
      ∷ ("protocol_setup", not (is_present d.protocol_setup))
      ∷ ("score", not (is_present d.score))
      ∷ ("invalidation", not (is_present d.invalidation))
      ∷ ("summary", not (is_present d.summary))
      ∷ []

  abbrev pub missing : LlmDecision N → List String
  missing d = names_of (required_fields d)

  -- The fields of a trade alone that are neither None nor empty.
  abbrev pub trade_only_fields : LlmDecision N → List (String × Bool)
  trade_only_fields d =
      ("timeframe", is_present d.timeframe)
      ∷ ("direction", is_present d.direction)
      ∷ ("execution_mode", is_present d.execution_mode)
      ∷ ("execution_condition", is_present d.execution_condition)
      ∷ ("entry", is_present d.entry)
      ∷ ("entry_zone_low", is_present d.entry_zone_low)
      ∷ ("entry_zone_high", is_present d.entry_zone_high)
      ∷ ("stop_loss", is_present d.stop_loss)
      ∷ ("tp1", is_present d.tp1)
      ∷ ("tp2", is_present d.tp2)
      ∷ ("time_stop", is_present d.time_stop)
      ∷ ("position_r", is_present d.position_r)
      ∷ ("protocol_setup", is_present d.protocol_setup)
      ∷ ("score", is_present d.score)
      ∷ ("evidence", not (is_empty d.evidence))
      ∷ ("invalidation", is_present d.invalidation)
      ∷ ("risk_reward", is_present d.risk_reward)
      ∷ []

  abbrev pub populated : LlmDecision N → List String
  populated d = names_of (trade_only_fields d)

  abbrev pub numeric_contract_fields : LlmDecision N → List (String × Bool)
  numeric_contract_fields d =
      ("execution_condition", lacks_number d.execution_condition)
      ∷ ("time_stop", lacks_number d.time_stop)
      ∷ ("invalidation", lacks_number d.invalidation)
      ∷ []

  abbrev pub missing_numbers : LlmDecision N → List String
  missing_numbers d = names_of (numeric_contract_fields d)

  -- Lines 99 to 146.
  abbrev pub trade_tests : LlmDecision N → List (Bool × ContractError)
  trade_tests d =
      (not (is_empty (missing d)), missing_fields (missing d))
      ∷ (not (length d.evidence == 3), evidence_count)
      ∷ (not (length (distinct d.evidence) == 3), evidence_repeated)
      ∷ (any_of (λ (s : String). not (has_digit s)) d.evidence, evidence_without_number)
      ∷ (not (is_empty (missing_numbers d)), fields_without_number (missing_numbers d))
      ∷ (not (is_empty d.rejection_reasons), trade_with_rejections)
      ∷ []

  pub check_trade : LlmDecision N → Result ContractError (LlmDecision N)
  check_trade d = raise_first (trade_tests d) d

  abbrev pub ambiguous_in : LlmDecision N → List String
  ambiguous_in d =
      let text = casefold (join " " (d.rejection_reasons ++ (or_empty d.summary ∷ []))) in
      keep (λ (term : String). contains (casefold term) text) ambiguous_terms

  -- Lines 148 to 161.
  abbrev pub refusal_tests : LlmDecision N → List (Bool × ContractError)
  refusal_tests d =
      (not (is_empty (populated d)), populated_fields d.status (populated d))
      ∷ (not (is_present d.summary), no_summary d.status)
      ∷ (is_empty d.rejection_reasons, no_rejections d.status)
      ∷ []

  pub check_fields_empty : LlmDecision N → Result ContractError (LlmDecision N)
  check_fields_empty d = raise_first (refusal_tests d) d

  -- Lines 163 to 172.
  abbrev pub definitive_tests : LlmDecision N → List (Bool × ContractError)
  definitive_tests d = (not (is_empty (ambiguous_in d)), ambiguous (ambiguous_in d)) ∷ []

  pub check_definitive : LlmDecision N → Result ContractError (LlmDecision N)
  check_definitive d = raise_first (definitive_tests d) d

  abbrev pub contract_for : DecisionStatus → LlmDecision N → Result ContractError (LlmDecision N)
  contract_for trade d = check_trade d
  contract_for no_trade d = check_fields_empty d >>= check_definitive
  contract_for data_error d = check_fields_empty d

  -- `LLMDecision.validate_status_contract`
  pub validate_status_contract : LlmDecision N → Result ContractError (LlmDecision N)
  validate_status_contract d = contract_for d.status d

  -- The constraint of a field that may be missing.
  abbrev pub fits : (Float → Bool) → Option Float → Bool
  fits test none = true
  fits test (some x) = test x

  abbrev pub is_positive : Float → Bool
  is_positive x = lt (nought N) x

  -- The numeric constraints of the fields, which the library checks; no float here is infinite.
  pub fields_fit : LlmDecision N → Bool
  fields_fit d =
      fits is_positive d.entry
      && (fits is_positive d.entry_zone_low
          && (fits is_positive d.entry_zone_high
              && (fits is_positive d.stop_loss
                  && (fits is_positive d.tp1
                      && (fits is_positive d.tp2
                          && (fits (λ (x : Float). is_positive x && le x (lit 15 1)) d.position_r
                              && (fits (λ (x : Float). le (nought N) x && le x (lit 100 0)) d.score
                                  && (leb (length d.evidence) 3
                                      && leb (length d.rejection_reasons) 3))))))))
