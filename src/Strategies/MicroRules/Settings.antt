-- ===== src/Strategies/MicroRules/Settings.antt =====
-- What settings that pass their check are worth.
use protocol_monitor.Common.{
  ℕ, ◌≤◌, ◌≡◌, refl, String, true, false, List, [], ◌∷◌, All, Bool-cases, inl, inr, ltb, ok, arith,
}
use protocol_monitor.Numbers.{Numbers, nought}
use protocol_monitor.Market.Kline.{Kline, DateTime}
use protocol_monitor.Indicators.Structure.{detect_structure}
use protocol_monitor.Indicators.Structure.Totality.{detect_structure-ok}
use protocol_monitor.Strategies.MicroRules.{
  Library, OpenInterestPoint, CryptoMicroRuleConfig, names_below_1, positive_integers,
  quantiles_fit, check_rest, check_config,
}
use protocol_monitor.Strategies.MicroRules.Data.{
  taker_flow, calculate_normalized_taker_flow, oi_washout, calculate_oi_washout,
}
use protocol_monitor.Strategies.MicroRules.Context.{state_or_empty, structure_of}

names_below_1-All :
    (fields : List (String × ℕ))
    → names_below_1 fields ≡ []
    → All (λ (f : String × ℕ). 1 ≤ f.1) fields
names_below_1-All [] e = tt
names_below_1-All ((name, value) ∷ rest) e = elim (Bool-cases (ltb value 1)) [
  | inl below ↦ absurd (ground (arith, below))
  | inr above ↦ (ground (arith, above), names_below_1-All rest (rw (above, names_below_1) at e))
]

module _ (N : Numbers) where
  open N use {lit, lt, le}

  -- What the check asks for.
  pub record IsChecked (c : CryptoMicroRuleConfig N) : Type 0 where
    pub are_positive : All (λ (f : String × ℕ). 1 ≤ f.1) (positive_integers N c)
    pub minimum_rr_pos : le c.minimum_rr (nought N) ≡ false
    pub risk_fraction_pos : le c.risk_fraction (nought N) ≡ false
    pub quantiles : quantiles_fit N c ≡ true

  check_rest-IsChecked :
      (c d : CryptoMicroRuleConfig N) (names : List String)
      → (names ≡ [] → All (λ (f : String × ℕ). 1 ≤ f.1) (positive_integers N c))
      → check_rest N c names ≡ ok d
      → IsChecked c
  check_rest-IsChecked c d (name ∷ names) h e = absurd (ground arith)
  check_rest-IsChecked c d [] h e = record {
    are_positive = h refl;
    minimum_rr_pos = ground arith;
    risk_fraction_pos = ground arith;
    quantiles = ground arith;
  }

  pub check_config-IsChecked :
      (c d : CryptoMicroRuleConfig N) → check_config N c ≡ ok d → IsChecked c
  unfolding check_config
  check_config-IsChecked c d e =
      check_rest-IsChecked c d (names_below_1 (positive_integers N c))
        (names_below_1-All (positive_integers N c)) e

  -- With settings that pass the check of `CryptoMicroRuleConfig`, none of the functions that the
  -- rules call with them raises its ValueError, whatever the data: the structure, the taker flow and
  -- the washout are computed.
  pub check_config-calls :
      (L : Library N) (c d : CryptoMicroRuleConfig N) (bars : List (Kline N))
      (points : List (OpenInterestPoint N)) (as_of : DateTime)
      → check_config N c ≡ ok d
      → (detect_structure N bars c.structure_lookback c.pivot_left c.pivot_right
          ≡ ok (structure_of N bars c))
        × (calculate_normalized_taker_flow N bars c.flow_lookback
            ≡ ok (taker_flow N bars c.flow_lookback))
        × (calculate_oi_washout N L points as_of c.oi_lookback c.oi_min_history c.lower_quantile
            ≡ ok (oi_washout N L points as_of c.oi_lookback c.oi_min_history c.lower_quantile))
  unfolding structure_of calculate_normalized_taker_flow calculate_oi_washout
  check_config-calls L c d bars points as_of e =
      let checked = check_config-IsChecked c d e in
      let (_, (_, (left, (right, (flow, (_, (_, (_, (_, (lookback, (history, _))))))))))) =
        checked.are_positive in
      let (state, found) =
        detect_structure-ok N bars c.structure_lookback c.pivot_left c.pivot_right left right in
      (rw (found, state_or_empty) refl, ground arith, ground (arith, checked.quantiles))
