-- ===== src/Review/Decision/Payload.antt =====
-- Reading a decision from its payload: `_parse_payload` and `normalize_decision`. The regular
-- expression of the code fence, `json.loads` and the validation of the fields by the library are
-- parameters.
use protocol_monitor.Common.{
  ℕ, String, Option, none, some, List, [], ◌∷◌, Dict, lookup, insert, Result, ok, err, ◌>>=◌,
}
use protocol_monitor.Common.Upper.{upper}
use protocol_monitor.Common.Search.{strip}
use protocol_monitor.Numbers.{Numbers}
use protocol_monitor.Review.Decision.{LlmDecision, ContractError, validate_status_contract}

-- A value of the payload: a text, or one of another type.
pub data Value (Raw : Type 0) : Type 0 where
  text : String → Value Raw
  other : Raw → Value Raw

pub data Payload (Raw : Type 0) : Type 0 where
  json : String → Payload Raw
  mapping : Dict (Value Raw) → Payload Raw
  -- Anything else, with the name of its type.
  foreign : String → Payload Raw

-- What `json.loads` gives.
pub data Decoded (Raw : Type 0) : Type 0 where
  object : Dict (Value Raw) → Decoded Raw
  not_object : Decoded Raw

-- `lineno`, `colno` and `msg` of a JSONDecodeError.
pub record JsonError : Type 0 where
  pub line : ℕ
  pub column : ℕ
  pub message : String

pub record Reader (N : Numbers) (Raw : Type 0) : Type 0 where
  -- The body of a text that is one code fence.
  pub fence_body : String → Option String
  pub loads : String → Result JsonError (Decoded Raw)
  -- The fields of `LLMDecision` with their constraints, or the formatted issues.
  pub validate_fields : Dict (Value Raw) → Result (List String) (LlmDecision N)

pub data ReadError : Type 0 where
  wrong_type : String → ReadError
  invalid_json : JsonError → ReadError
  not_an_object : ReadError
  bad_fields : List String → ReadError
  bad_contract : ContractError → ReadError

module _ (N : Numbers) (Raw : Type 0) (R : Reader N Raw) where
  abbrev pub unfenced : String → Option String → String
  unfenced stripped none = stripped
  unfenced stripped (some body) = strip body

  abbrev pub object_of : Result JsonError (Decoded Raw) → Result ReadError (Dict (Value Raw))
  object_of (err e) = err (invalid_json e)
  object_of (ok not_object) = err not_an_object
  object_of (ok (object data_)) = ok data_

  -- `_parse_payload`
  unfoldable pub parse_payload : Payload Raw → Result ReadError (Dict (Value Raw))
  parse_payload (mapping data_) = ok data_
  parse_payload (foreign name) = err (wrong_type name)
  parse_payload (json s) =
      let stripped = strip s in object_of (R.loads (unfenced stripped (R.fence_body stripped)))

  -- The body of the loop of lines 180 to 183, on the value of the field.
  abbrev pub in_upper_case : String → Option (Value Raw) → Dict (Value Raw) → Dict (Value Raw)
  in_upper_case field (some (text s)) data_ = insert field (text (upper (strip s))) data_
  in_upper_case field _ data_ = data_

  abbrev pub normalize_fields : List String → Dict (Value Raw) → Dict (Value Raw)
  normalize_fields [] data_ = data_
  normalize_fields (field ∷ fields) data_ =
      normalize_fields fields (in_upper_case field (lookup field data_) data_)

  abbrev pub contract_of : Result ContractError (LlmDecision N) → Result ReadError (LlmDecision N)
  contract_of (ok d) = ok d
  contract_of (err e) = err (bad_contract e)

  -- `LLMDecision.model_validate`: the fields, then the validator of the model.
  abbrev pub model_validate :
      Result (List String) (LlmDecision N) → Result ReadError (LlmDecision N)
  model_validate (err issues) = err (bad_fields issues)
  model_validate (ok d) = contract_of (validate_status_contract N d)

  -- `normalize_decision`
  unfoldable pub normalize_decision : Payload Raw → Result ReadError (LlmDecision N)
  normalize_decision payload = parse_payload payload >>= λ data_. model_validate (
      R.validate_fields
        (normalize_fields ("status" ∷ "timeframe" ∷ "direction" ∷ "execution_mode" ∷ []) data_))
