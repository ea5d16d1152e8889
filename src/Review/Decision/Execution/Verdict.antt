-- ===== src/Review/Decision/Execution/Verdict.antt =====
-- What the checks of `validate_decision` guarantee.
use protocol_monitor.Common.{
  ◌≡◌, ◌≢◌, refl, sym, ap, ◌⊎◌, ◌∙◌, String, Bool, inl, inr, some, List, [], ◌∷◌, Result,
  Result-cases, ok, err, arith,
}
use mathlib.Core.Path.{subst}
use protocol_monitor.Numbers.{Numbers}
use protocol_monitor.Review.Decision.{
  LlmDecision, DecisionStatus, trade, no_trade, data_error, validate_status_contract, ambiguous_in,
}
use protocol_monitor.Review.Decision.Contract.{
  IsTrade, IsRefusal, Meets, validate_status_contract-Meets,
}
use protocol_monitor.Review.Decision.Execution.Sound.{
  IsTrade-trade_of, IsExecutable, errors_with-Sound,
}
use protocol_monitor.Review.Decision.Payload.{
  Payload, Reader, model_validate, parse_payload, normalize_decision,
}
use protocol_monitor.Review.Decision.Trade.{Arguments, ExecutionError, Trade, trade_of, rr_of}
use protocol_monitor.Review.Decision.Execution.{
  DecisionError, refused, type_error, positive_finite, errors_of, with_risk_reward, if_sound,
  check_execution, validate_for, validate_normalized, validate_decision,
}

or_else : {E A : Type 0} → A → Result E A → A
or_else a (ok b) = b
or_else a (err e) = a

ok_inj : {E A : Type 0} → (a b : A) → ◌≡◌ {A = Result E A} (ok a) (ok b) → a ≡ b
unfolding or_else
ok_inj a b h = ap (or_else a) h

module _ (N : Numbers) where
  open N use {Float, round}

  module _ (is_finite : Float → Bool) where
    -- A trade's checks never meet a None, and what they accept is sound and rated.
    abbrev Accepts : Arguments N → LlmDecision N → Type 0
    Accepts a d =
        (t : Trade N) × (c : Float) × (m : Float) × (x : Float) × (rr : Float) × (positive_finite N
            is_finite a.current_price
          ≡ some c)
        × (positive_finite N is_finite a.min_rr ≡ some m)
        × (positive_finite N is_finite a.max_position_r ≡ some x)
        × (trade_of N d ≡ some t)
        × IsExecutable N is_finite t c m x rr
        × (d.risk_reward ≡ some (round rr 4))

    -- What the checks make of a trade: errors, or the rated decision.
    abbrev Outcome : Arguments N → LlmDecision N → Result DecisionError (LlmDecision N) → Type 0
    Outcome a d r =
        ((es : List ExecutionError) × (r ≡ err (refused es)))
        ⊎ ((rr : Float) × (r ≡ ok (with_risk_reward N is_finite d rr))
            × Accepts a (with_risk_reward N is_finite d rr))

    if_sound-Outcome :
        (d : LlmDecision N) (a : Arguments N) (t : Trade N) (es : List ExecutionError)
        → errors_of N is_finite t a ≡ es
        → trade_of N d ≡ some t
        → Outcome a d
            (if_sound N is_finite d es (rr_of N t (positive_finite N is_finite a.current_price)))
    unfolding errors_of trade_of
    if_sound-Outcome d a t (e ∷ es) h is_t = inl (e ∷ es, refl)
    if_sound-Outcome d a t [] h is_t =
        let (c, m, x, rr, e_c, e_m, e_x, e_rr, sound) =
          errors_with-Sound N is_finite t (positive_finite N is_finite a.current_price)
            (positive_finite N is_finite a.min_rr) (positive_finite N is_finite a.max_position_r)
            h in
        inr (rr, rw (e_c, e_rr) refl, (t, c, m, x, rr, e_c, e_m, e_x, is_t, sound, refl))

    check_execution-Outcome :
        (d : LlmDecision N) (a : Arguments N)
        → IsTrade N d
        → Outcome a d (check_execution N is_finite d a (trade_of N d))
    check_execution-Outcome d a is =
        let (t, is_t) = IsTrade-trade_of N d is in
        rw is_t (if_sound-Outcome d a t (errors_of N is_finite t a) refl is_t)

    -- What an accepted decision is, by its status.
    abbrev pub Verdict : DecisionStatus → Arguments N → LlmDecision N → Type 0
    Verdict trade a d = IsTrade N d × Accepts a d
    Verdict no_trade a d = IsRefusal N d × (ambiguous_in N d ≡ [])
    Verdict data_error a d = IsRefusal N d

    rated-IsTrade :
        (d : LlmDecision N) (rr : Float)
        → IsTrade N d
        → IsTrade N (with_risk_reward N is_finite d rr)
    rated-IsTrade d rr is = record {
      timeframe = is.timeframe;
      direction = is.direction;
      mode = is.mode;
      condition = is.condition;
      entry = is.entry;
      low = is.low;
      high = is.high;
      stop = is.stop;
      target = is.target;
      time = is.time;
      position = is.position;
      setup = is.setup;
      score = is.score;
      invalidation = is.invalidation;
      summary = is.summary;
      numeric_condition = is.numeric_condition;
      numeric_time = is.numeric_time;
      numeric_invalidation = is.numeric_invalidation;
      three = is.three;
      different = is.different;
      numbered = is.numbered;
      without_rejections = is.without_rejections;
    }

    validate_for-Verdict :
        (s : DecisionStatus) (a : Arguments N) (d : LlmDecision N)
        → d.status ≡ s
        → Meets N s d
        → (validate_for N is_finite s a d ≢ err type_error)
          × ((e : LlmDecision N) → validate_for N is_finite s a d ≡ ok e → Verdict e.status a e)
    validate_for-Verdict trade a d st meets = elim (check_execution-Outcome d a meets) [
      | inl (es, failed) ↦
          (λ h. absurd (ground (arith, failed)), λ e h. absurd (ground (arith, failed)))
      | inr (rr, passed, accepts) ↦ (
        λ h. absurd (ground (arith, passed)),
        λ e h.
            subst (λ (x : LlmDecision N). Verdict x.status a x) (ok_inj _ _ (sym passed ∙ h))
              (subst (λ (u : DecisionStatus). Verdict u a (with_risk_reward N is_finite d rr))
                (sym st) (rated-IsTrade d rr meets, accepts)),
      )
    ]
    validate_for-Verdict no_trade a d st meets = (
      λ h. absurd (ground arith),
      λ e h.
          subst (λ (x : LlmDecision N). Verdict x.status a x) (ok_inj _ _ h)
            (subst (λ (u : DecisionStatus). Verdict u a d) (sym st) meets),
    )
    validate_for-Verdict data_error a d st meets = (
      λ h. absurd (ground arith),
      λ e h.
          subst (λ (x : LlmDecision N). Verdict x.status a x) (ok_inj _ _ h)
            (subst (λ (u : DecisionStatus). Verdict u a d) (sym st) meets),
    )

    module _ (Raw : Type 0) (R : Reader N Raw) where
      model_validate-Meets :
          (r : Result (List String) (LlmDecision N)) (d : LlmDecision N)
          → model_validate N Raw R r ≡ ok d
          → Meets N d.status d
      model_validate-Meets (err issues) d h = absurd (ground arith)
      model_validate-Meets (ok c) d h = elim (Result-cases (validate_status_contract N c)) [
        | inl (e, failed) ↦ absurd (ground (arith, failed))
        | inr (e, passed) ↦
            let (same, meets) = validate_status_contract-Meets N c e passed in
            let is_c : c ≡ d = sym same ∙ ok_inj _ _ (rw passed at h) in
            subst (λ (x : LlmDecision N). Meets N x.status x) is_c meets
      ]

      normalize_decision-Meets :
          (payload : Payload Raw) (d : LlmDecision N)
          → normalize_decision N Raw R payload ≡ ok d
          → Meets N d.status d
      unfolding normalize_decision
      normalize_decision-Meets payload d h = elim (Result-cases (parse_payload N Raw R payload)) [
        | inl (e, failed) ↦ absurd (ground (arith, failed))
        | inr (fields, parsed) ↦ model_validate-Meets _ d (rw parsed at h)
      ]

      validate_decision-both :
          (payload : Payload Raw) (a : Arguments N)
          → (validate_decision N is_finite Raw R payload a ≢ err type_error)
            × ((d : LlmDecision N)
                → validate_decision N is_finite Raw R payload a ≡ ok d
                → Verdict d.status a d)
      unfolding validate_decision validate_normalized
      validate_decision-both payload a = elim (Result-cases (normalize_decision N Raw R payload)) [
        | inl (e, failed) ↦
            (λ h. absurd (ground (arith, failed)), λ d h. absurd (ground (arith, failed)))
        | inr (c, read) ↦
            let (total, verdict) =
              validate_for-Verdict c.status a c refl (normalize_decision-Meets payload c read) in
            (
              λ h. total (rw (read, validate_decision) at h),
              λ d h. verdict d (rw (read, validate_decision) at h),
            )
      ]

      -- Whatever the payload and the arguments, the checks never compare a field that is None: a
      -- decision to trade that was read has all the fields that they use.
      pub validate_decision-no_type_error :
          (payload : Payload Raw) (a : Arguments N)
          → validate_decision N is_finite Raw R payload a ≢ err type_error
      validate_decision-no_type_error payload a = (validate_decision-both payload a).0

      -- A decision that is accepted is, for TRADE, a full trade whose prices are in order around
      -- its entry zone, whose size is at most the maximum, whose mode fits the current price, whose
      -- entry is the executable price and whose reward is at least the minimum times the risk there,
      -- and it carries that ratio rounded to four digits; for NO_TRADE a refusal without any field
      -- of a trade or ambiguous word; and for DATA_ERROR such a refusal, words aside.
      pub validate_decision-Verdict :
          (payload : Payload Raw) (a : Arguments N) (d : LlmDecision N)
          → validate_decision N is_finite Raw R payload a ≡ ok d
          → Verdict d.status a d
      validate_decision-Verdict payload a d h = (validate_decision-both payload a).1 d h
