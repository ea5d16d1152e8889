-- ===== src/Strategies/MicroRules/Cm3/Candidate.antt =====
-- What holds of a candidate for a long.
use protocol_monitor.Common.{
  ◌≤◌, ◌≡◌, refl, true, Option, none, some, [], ◌∷◌, get_last?, All, arith, Bool-cases,
  Option-cases, inl, inr,
}
use mathlib.Core.Path.{subst}
use protocol_monitor.Numbers.{Numbers}
use protocol_monitor.Market.Kline.{Kline, DateTime}
use protocol_monitor.Backtest.Engine.{long}
use protocol_monitor.Strategies.MicroRules.{
  Library, FundingPoint, CryptoMicroRuleConfig, passed, MicroSignalCandidate, status_of, all_passed,
}
use protocol_monitor.Strategies.MicroRules.Numeric.Laws.{All-get_last?}
use protocol_monitor.Strategies.MicroRules.Data.{causal_bars}
use protocol_monitor.Strategies.MicroRules.Data.Usable.{
  causal_bars-IsClosedBy, latest_funding-available,
}
use protocol_monitor.Strategies.MicroRules.Setups.{Cm3Setup}
use protocol_monitor.Strategies.MicroRules.Context.{oi_washout_near_sweep}
use protocol_monitor.Strategies.MicroRules.Context.Washout.{oi_washout_near_sweep-available}
use protocol_monitor.Strategies.MicroRules.Funnel.{
  status_of-all_passed, IsBy, le-latest_from, latest_from-le, guarded_some,
}
use protocol_monitor.Strategies.MicroRules.Cm2.{close_of, funding_time}
use protocol_monitor.Strategies.MicroRules.Cm2.Candidate.{close_of-IsBy, funding_time-IsBy}
use protocol_monitor.Strategies.MicroRules.Cm3.{
  washout_time, washout_near, Inputs, Findings, findings, candidate_with, candidate_on,
  candidate_of, evaluate_cm3_long,
}

module _ (N : Numbers) where
  open N use {Float, float, lt}

  -- A candidate for a long on the bar `current`, known by `as_of`.
  pub record IsLong (as_of : DateTime) (current : Kline N) (c : MicroSignalCandidate N)
      : Type 0 where
    pub is_long : c.direction ≡ long
    pub on_close : c.signal_time ≡ current.close_time
    pub stop_below : lt c.stop (float current.close) ≡ true
    pub target_above : lt (float current.close) c.target ≡ true
    pub after_signal : c.signal_time ≤ c.available_at
    pub known_by : c.available_at ≤ as_of

  module _ (L : Library N) (config : CryptoMicroRuleConfig N) where
    washout_near-IsBy :
        (i : Inputs N) (bar : Option (Kline N))
        → IsBy i.as_of (washout_time N (washout_near N L i config bar))
    washout_near-IsBy i none = tt
    washout_near-IsBy i (some bar) =
        elim (Option-cases (oi_washout_near_sweep N L i.open_interest i.as_of bar config)) [
          | inl missing ↦ rw missing tt
          | inr (w, found) ↦
              rw found
                (oi_washout_near_sweep-available N L config i.open_interest i.as_of bar w found)
        ]

    -- All times of the findings are by `t`.
    record IsKnownBy (t : DateTime) (f : Findings N) : Type 0 where
      pub bars_5m : All (λ (k : Kline N). k.close_time ≤ t) f.bars_5m
      pub btc_bars : All (λ (k : Kline N). k.close_time ≤ t) f.btc_bars
      pub washout : IsBy t (washout_time N f.oi_state)
      pub funding : (p : FundingPoint N) → f.funding_point ≡ some p → p.available_at ≤ t

    findings-IsKnownBy : (i : Inputs N) → IsKnownBy i.as_of (findings N L i config)
    unfolding findings
    findings-IsKnownBy i = record {
      bars_5m = causal_bars-IsClosedBy N i.as_of "5m" i.eth_5m;
      btc_bars = causal_bars-IsClosedBy N i.as_of "5m" i.btc_5m;
      washout = washout_near-IsBy i _;
      funding = λ p e. latest_funding-available N L i.as_of i.funding p e;
    }

    candidate_with-IsLong :
        (t : DateTime) (f : Findings N) (setup : Cm3Setup N) (target : Float) (current : Kline N)
        (c : MicroSignalCandidate N)
        → IsKnownBy t f
        → current.close_time ≤ t
        → candidate_with N L config f setup target current ≡ some c
        → IsLong t current c
    unfolding candidate_with
    candidate_with-IsLong t f setup target current c known now e =
        let times =
          close_of N (get_last? f.btc_bars)
          ∷ washout_time N f.oi_state
          ∷ funding_time N f.funding_point
          ∷ [] in
        let after = le-latest_from current.close_time times in
        let by = latest_from-le current.close_time t times now (
          close_of-IsBy N t f.btc_bars known.btc_bars,
          (known.washout, (funding_time-IsBy N t f.funding_point known.funding, tt)),
        ) in
        let (below, above, same) = guarded_some _ _ _ c e in
        subst (IsLong t current) same (record {
          is_long = refl;
          on_close = refl;
          stop_below = below;
          target_above = above;
          after_signal = after;
          known_by = by;
        })

    candidate_on-IsLong :
        (t : DateTime) (f : Findings N) (setup : Option (Cm3Setup N)) (target : Option Float)
        (current : Option (Kline N)) (c : MicroSignalCandidate N)
        → IsKnownBy t f
        → ((k : Kline N) → current ≡ some k → k.close_time ≤ t)
        → candidate_on N L config f setup target current ≡ some c
        → (k : Kline N) × (current ≡ some k) × IsLong t k c
    candidate_on-IsLong t f none target current c known now e = absurd (ground arith)
    candidate_on-IsLong t f (some setup) none current c known now e = absurd (ground arith)
    candidate_on-IsLong t f (some setup) (some target) none c known now e = absurd (ground arith)
    candidate_on-IsLong t f (some setup) (some target) (some k) c known now e =
        (k, refl, candidate_with-IsLong t f setup target k c known (now k refl) e)

    -- A candidate of `evaluate_cm3_long` comes only with every required condition passed, and it is
    -- a long on the last usable bar of ETH: its stop is below that bar's close and its target above
    -- it, and it is available no earlier than the bar's close and no later than `as_of`, also when
    -- it waits for a washout of the open interest.
    pub evaluate_cm3_long-IsLong :
        (i : Inputs N) (c : MicroSignalCandidate N)
        → (evaluate_cm3_long N L i config).candidate ≡ some c
        → (status_of (evaluate_cm3_long N L i config).conditions ≡ passed)
          × ((k : Kline N) × (get_last? (causal_bars N i.as_of "5m" i.eth_5m) ≡ some k)
              × IsLong i.as_of k c)
    unfolding evaluate_cm3_long candidate_of findings
    evaluate_cm3_long-IsLong i c e =
        let f = findings N L i config in
        let known = findings-IsKnownBy i in
        elim (Bool-cases (all_passed f.conditions)) [
          | inr not_all ↦ absurd (ground (arith, not_all))
          | inl all ↦ (
            (status_of-all_passed f.conditions).0.1 all,
            candidate_on-IsLong i.as_of f f.setup f.target (get_last? f.bars_5m) c known
                (λ k last.
                  All-get_last? (λ (k : Kline N). k.close_time ≤ i.as_of) f.bars_5m k known.bars_5m
                    last)
                (rw all at e),
          )
        ]
