-- ===== src/Review/Decision/Contract.antt =====
-- What the status contract guarantees.
use protocol_monitor.Common.{
  ◌≡◌, refl, String, Bool, true, false, not, inl, inr, Option, none, some, List, [], ◌∷◌, All,
  any_of, length, ok, ◌>>=◌, raise_first-ok, Result-cases, arith,
}
use protocol_monitor.Common.Search.{has_digit}
use protocol_monitor.Numbers.{Numbers}
use protocol_monitor.Backtest.Engine.{Direction}
use protocol_monitor.Review.Decision.{
  DecisionStatus, DecisionTimeframe, lacks_number, trade, no_trade, data_error, ExecutionMode,
  LlmDecision, is_present, is_empty, names_of, distinct, required_fields, trade_only_fields,
  numeric_contract_fields, trade_tests, refusal_tests, definitive_tests, check_trade, ambiguous_in,
  check_fields_empty, check_definitive, contract_for, validate_status_contract,
}

names_of-none :
    (fields : List (String × Bool))
    → not (is_empty (names_of fields)) ≡ false
    → All (λ (f : String × Bool). f.1 ≡ false) fields
names_of-none [] h = tt
names_of-none ((name, true) ∷ rest) h = absurd (ground arith)
names_of-none ((name, false) ∷ rest) h = (refl, names_of-none rest h)

pub is_present-some {ℓ} :
    {A : Type ℓ} (o : Option A) → not (is_present o) ≡ false → (a : A) × (o ≡ some a)
is_present-some none h = absurd (ground arith)
is_present-some (some a) h = (a, refl)

absent {ℓ} : {A : Type ℓ} (o : Option A) → is_present o ≡ false → o ≡ none
absent none h = refl
absent (some a) h = absurd (ground arith)

no_items : {A : Type 0} (xs : List A) → not (is_empty xs) ≡ false → xs ≡ []
no_items [] h = refl
no_items (x ∷ xs) h = absurd (ground arith)

module _ (N : Numbers) where
  open N use {Float}

  -- A decision to trade with all that a trade needs: how, at which prices, how much and why, with a
  -- number in its condition, its time stop and its invalidation, on three different pieces of
  -- evidence with numbers.
  pub record IsTrade (d : LlmDecision N) : Type 0 where
    pub timeframe : (x : DecisionTimeframe) × (d.timeframe ≡ some x)
    pub direction : (x : Direction) × (d.direction ≡ some x)
    pub mode : (x : ExecutionMode) × (d.execution_mode ≡ some x)
    pub condition : (x : String) × (d.execution_condition ≡ some x)
    pub entry : (x : Float) × (d.entry ≡ some x)
    pub low : (x : Float) × (d.entry_zone_low ≡ some x)
    pub high : (x : Float) × (d.entry_zone_high ≡ some x)
    pub stop : (x : Float) × (d.stop_loss ≡ some x)
    pub target : (x : Float) × (d.tp1 ≡ some x)
    pub time : (x : String) × (d.time_stop ≡ some x)
    pub position : (x : Float) × (d.position_r ≡ some x)
    pub setup : (x : String) × (d.protocol_setup ≡ some x)
    pub score : (x : Float) × (d.score ≡ some x)
    pub invalidation : (x : String) × (d.invalidation ≡ some x)
    pub summary : (x : String) × (d.summary ≡ some x)
    pub numeric_condition : lacks_number d.execution_condition ≡ false
    pub numeric_time : lacks_number d.time_stop ≡ false
    pub numeric_invalidation : lacks_number d.invalidation ≡ false
    pub three : length d.evidence ≡ 3
    pub different : length (distinct d.evidence) ≡ 3
    pub numbered : any_of (λ (s : String). not (has_digit s)) d.evidence ≡ false
    pub without_rejections : d.rejection_reasons ≡ []

  -- A decision not to trade that has no field of a trade and gives its summary and its reasons.
  pub record IsRefusal (d : LlmDecision N) : Type 0 where
    pub no_timeframe : d.timeframe ≡ none
    pub no_direction : d.direction ≡ none
    pub no_mode : d.execution_mode ≡ none
    pub no_condition : d.execution_condition ≡ none
    pub no_entry : d.entry ≡ none
    pub no_low : d.entry_zone_low ≡ none
    pub no_high : d.entry_zone_high ≡ none
    pub no_stop : d.stop_loss ≡ none
    pub no_target : d.tp1 ≡ none
    pub no_second_target : d.tp2 ≡ none
    pub no_time : d.time_stop ≡ none
    pub no_position : d.position_r ≡ none
    pub no_setup : d.protocol_setup ≡ none
    pub no_score : d.score ≡ none
    pub no_evidence : d.evidence ≡ []
    pub no_invalidation : d.invalidation ≡ none
    pub no_ratio : d.risk_reward ≡ none
    pub has_summary : (s : String) × (d.summary ≡ some s)
    pub has_reasons : is_empty d.rejection_reasons ≡ false

  check_trade-IsTrade : (d e : LlmDecision N) → check_trade N d ≡ ok e → (e ≡ d) × IsTrade d
  unfolding check_trade
  check_trade-IsTrade d e h =
      let (tests, same) = raise_first-ok (trade_tests N d) d e h in
      let (given, (count, (repeated, (digits, (numbers, (rejections, _)))))) = tests in
      let (numeric_condition, (numeric_time, (numeric_invalidation, _))) =
        names_of-none (numeric_contract_fields N d) numbers in
      let (
        timeframe,
        (
          direction,
          (
            mode,
            (
              condition,
              (
                entry,
                (
                  low,
                  (
                    high,
                    (
                      stop,
                      (target, (time, (position, (setup, (score, (invalidation, (summary, _))))))),
                    ),
                  ),
                ),
              ),
            ),
          ),
        ),
      ) =
        names_of-none (required_fields N d) given in
      (
        same,
        record {
          timeframe = is_present-some d.timeframe timeframe;
          direction = is_present-some d.direction direction;
          mode = is_present-some d.execution_mode mode;
          condition = is_present-some d.execution_condition condition;
          entry = is_present-some d.entry entry;
          low = is_present-some d.entry_zone_low low;
          high = is_present-some d.entry_zone_high high;
          stop = is_present-some d.stop_loss stop;
          target = is_present-some d.tp1 target;
          time = is_present-some d.time_stop time;
          position = is_present-some d.position_r position;
          setup = is_present-some d.protocol_setup setup;
          score = is_present-some d.score score;
          invalidation = is_present-some d.invalidation invalidation;
          summary = is_present-some d.summary summary;
          numeric_condition = numeric_condition;
          numeric_time = numeric_time;
          numeric_invalidation = numeric_invalidation;
          three = ground arith;
          different = ground arith;
          numbered = digits;
          without_rejections = no_items d.rejection_reasons rejections;
        },
      )

  check_fields_empty-IsRefusal :
      (d e : LlmDecision N) → check_fields_empty N d ≡ ok e → (e ≡ d) × IsRefusal d
  unfolding check_fields_empty
  check_fields_empty-IsRefusal d e h =
      let (tests, same) = raise_first-ok (refusal_tests N d) d e h in
      let (fields, (has_summary, (reasons, _))) = tests in
      let (
        timeframe,
        (
          direction,
          (
            mode,
            (
              condition,
              (
                entry,
                (
                  low,
                  (
                    high,
                    (
                      stop,
                      (
                        target,
                        (
                          second_target,
                          (
                            time,
                            (position, (setup, (score, (evidence, (invalidation, (ratio, _)))))),
                          ),
                        ),
                      ),
                    ),
                  ),
                ),
              ),
            ),
          ),
        ),
      ) =
        names_of-none (trade_only_fields N d) fields in
      (
        same,
        record {
          no_timeframe = absent d.timeframe timeframe;
          no_direction = absent d.direction direction;
          no_mode = absent d.execution_mode mode;
          no_condition = absent d.execution_condition condition;
          no_entry = absent d.entry entry;
          no_low = absent d.entry_zone_low low;
          no_high = absent d.entry_zone_high high;
          no_stop = absent d.stop_loss stop;
          no_target = absent d.tp1 target;
          no_second_target = absent d.tp2 second_target;
          no_time = absent d.time_stop time;
          no_position = absent d.position_r position;
          no_setup = absent d.protocol_setup setup;
          no_score = absent d.score score;
          no_evidence = no_items d.evidence evidence;
          no_invalidation = absent d.invalidation invalidation;
          no_ratio = absent d.risk_reward ratio;
          has_summary = is_present-some d.summary has_summary;
          has_reasons = reasons;
        },
      )

  check_definitive-ambiguous_in :
      (d e : LlmDecision N) → check_definitive N d ≡ ok e → (e ≡ d) × (ambiguous_in N d ≡ [])
  unfolding check_definitive
  check_definitive-ambiguous_in d e h =
      let (tests, same) = raise_first-ok (definitive_tests N d) d e h in
      (same, no_items (ambiguous_in N d) (tests.0))

  -- What the contract says of a decision of each status.
  abbrev pub Meets : DecisionStatus → LlmDecision N → Type 0
  Meets trade d = IsTrade d
  Meets no_trade d = IsRefusal d × (ambiguous_in N d ≡ [])
  Meets data_error d = IsRefusal d

  Meets-no_trade :
      (d e : LlmDecision N)
      → (check_fields_empty N d >>= check_definitive N) ≡ ok e
      → (e ≡ d) × Meets no_trade d
  Meets-no_trade d e h = elim (Result-cases (check_fields_empty N d)) [
    | inl (f, failed) ↦ absurd (ground (arith, failed))
    | inr (c, passed) ↦
        let (same, refusal) = check_fields_empty-IsRefusal d c passed in
        let (again, definite) = check_definitive-ambiguous_in d e (rw (passed, same) at h) in
        (again, (refusal, definite))
  ]

  contract_for-Meets :
      (s : DecisionStatus) (d e : LlmDecision N) → contract_for N s d ≡ ok e → (e ≡ d) × Meets s d
  contract_for-Meets trade d e h = check_trade-IsTrade d e h
  contract_for-Meets no_trade d e h = Meets-no_trade d e h
  contract_for-Meets data_error d e h = check_fields_empty-IsRefusal d e h

  -- A decision that passes the contract of its status is unchanged. A TRADE has all the fifteen
  -- required fields, numbers in its condition, time stop and invalidation, three different pieces of
  -- evidence with numbers and no rejection reasons. A refusal has none of the seventeen fields of a
  -- trade, and it has a summary and rejection reasons, in which, for NO_TRADE, there is no word of
  -- waiting or watching.
  pub validate_status_contract-Meets :
      (d e : LlmDecision N) → validate_status_contract N d ≡ ok e → (e ≡ d) × Meets d.status d
  unfolding validate_status_contract
  validate_status_contract-Meets d e h = contract_for-Meets d.status d e h
