-- ===== src/Strategies/MicroRules/Cm2/Candidate.antt =====
-- What holds of a candidate for a short.
use protocol_monitor.Common.{
  ◌≤◌, ◌≡◌, refl, Bool, true, false, Option, none, some, List, [], ◌∷◌, get_last?, All, arith,
  Bool-cases, Option-cases, inl, inr, if◌then◌else◌,
}
use mathlib.Core.Path.{subst}
use protocol_monitor.Numbers.{Numbers}
use protocol_monitor.Market.Kline.{Kline, DateTime}
use protocol_monitor.Backtest.Engine.{short}
use protocol_monitor.Strategies.MicroRules.{
  Library, FundingPoint, CryptoMicroRuleConfig, passed, MicroSignalCandidate, status_of, all_passed,
}
use protocol_monitor.Strategies.MicroRules.Numeric.Laws.{All-get_last?}
use protocol_monitor.Strategies.MicroRules.Data.{causal_bars}
use protocol_monitor.Strategies.MicroRules.Data.Usable.{
  causal_bars-IsClosedBy, latest_funding-available,
}
use protocol_monitor.Strategies.MicroRules.Setups.{Cm2Setup, find_cm2_setup}
use protocol_monitor.Strategies.MicroRules.Setups.Found.{find_cm2_setup-available}
use protocol_monitor.Strategies.MicroRules.Funnel.{
  status_of-all_passed, IsBy, le-latest_from, latest_from-le, guarded_some,
}
use protocol_monitor.Strategies.MicroRules.Cm2.{
  close_of, funding_time, Inputs, Findings, findings, candidate_with, candidate_on, candidate_of,
  evaluate_cm2_short,
}

module _ (N : Numbers) where
  open N use {Float, float, lt}

  -- A candidate for a short on the bar `current`, known by `as_of`.
  pub record IsShort (as_of : DateTime) (current : Kline N) (c : MicroSignalCandidate N)
      : Type 0 where
    pub is_short : c.direction ≡ short
    pub on_close : c.signal_time ≡ current.close_time
    pub stop_above : lt (float current.close) c.stop ≡ true
    pub target_below : lt c.target (float current.close) ≡ true
    pub after_signal : c.signal_time ≤ c.available_at
    pub known_by : c.available_at ≤ as_of

  pub close_of-IsBy :
      (t : DateTime) (bars : List (Kline N))
      → All (λ (k : Kline N). k.close_time ≤ t) bars
      → IsBy t (close_of N (get_last? bars))
  close_of-IsBy t bars h = elim (Option-cases (get_last? bars)) [
    | inl missing ↦ rw missing tt
    | inr (k, found) ↦ rw found (All-get_last? (λ (k : Kline N). k.close_time ≤ t) bars k h found)
  ]

  pub funding_time-IsBy :
      (t : DateTime) (point : Option (FundingPoint N))
      → ((p : FundingPoint N) → point ≡ some p → p.available_at ≤ t)
      → IsBy t (funding_time N point)
  funding_time-IsBy t none h = tt
  funding_time-IsBy t (some p) h = h p refl

  module _ (L : Library N) (config : CryptoMicroRuleConfig N) where
    -- All times of the findings are by `t`.
    record IsKnownBy (t : DateTime) (f : Findings N) : Type 0 where
      pub bars_5m : All (λ (k : Kline N). k.close_time ≤ t) f.bars_5m
      pub bars_15m : All (λ (k : Kline N). k.close_time ≤ t) f.bars_15m
      pub bars_4h : All (λ (k : Kline N). k.close_time ≤ t) f.bars_4h
      pub btc_bars : All (λ (k : Kline N). k.close_time ≤ t) f.btc_bars
      pub setup : (s : Cm2Setup N) → f.setup ≡ some s → s.node.available_at ≤ t
      pub funding : (p : FundingPoint N) → f.funding_point ≡ some p → p.available_at ≤ t

    if_found :
        (t : DateTime) (b : Bool) (bars_5m bars_15m : List (Kline N)) (atr : Float) (s : Cm2Setup N)
        → All (λ (k : Kline N). k.close_time ≤ t) bars_15m
        → (if b then find_cm2_setup N bars_5m bars_15m atr config else none) ≡ some s
        → s.node.available_at ≤ t
    if_found t true bars_5m bars_15m atr s h e =
        find_cm2_setup-available N t bars_5m bars_15m atr config s h e
    if_found t false bars_5m bars_15m atr s h e = absurd (ground arith)

    findings-IsKnownBy : (i : Inputs N) → IsKnownBy i.as_of (findings N L i config)
    unfolding findings
    findings-IsKnownBy i = record {
      bars_5m = causal_bars-IsClosedBy N i.as_of "5m" i.eth_5m;
      bars_15m = causal_bars-IsClosedBy N i.as_of "15m" i.eth_15m;
      bars_4h = causal_bars-IsClosedBy N i.as_of "4h" i.eth_4h;
      btc_bars = causal_bars-IsClosedBy N i.as_of "5m" i.btc_5m;
      setup =
          λ s e. if_found i.as_of _ _ _ _ s (causal_bars-IsClosedBy N i.as_of "15m" i.eth_15m) e;
      funding = λ p e. latest_funding-available N L i.as_of i.funding p e;
    }

    candidate_with-IsShort :
        (t : DateTime) (f : Findings N) (setup : Cm2Setup N) (target : Float) (current : Kline N)
        (c : MicroSignalCandidate N)
        → IsKnownBy t f
        → f.setup ≡ some setup
        → current.close_time ≤ t
        → candidate_with N L config f setup target current ≡ some c
        → IsShort t current c
    unfolding candidate_with
    candidate_with-IsShort t f setup target current c known found now e =
        let times =
          close_of N (get_last? f.bars_15m)
          ∷ close_of N (get_last? f.bars_4h)
          ∷ close_of N (get_last? f.btc_bars)
          ∷ some setup.node.available_at
          ∷ funding_time N f.funding_point
          ∷ [] in
        let after = le-latest_from current.close_time times in
        let by = latest_from-le current.close_time t times now (
          close_of-IsBy t f.bars_15m known.bars_15m,
          (
            close_of-IsBy t f.bars_4h known.bars_4h,
            (
              close_of-IsBy t f.btc_bars known.btc_bars,
              (known.setup setup found, (funding_time-IsBy t f.funding_point known.funding, tt)),
            ),
          ),
        ) in
        let (above, below, same) = guarded_some _ _ _ c e in
        subst (IsShort t current) same (record {
          is_short = refl;
          on_close = refl;
          stop_above = above;
          target_below = below;
          after_signal = after;
          known_by = by;
        })

    candidate_on-IsShort :
        (t : DateTime) (f : Findings N) (setup : Option (Cm2Setup N)) (target : Option Float)
        (current : Option (Kline N)) (c : MicroSignalCandidate N)
        → IsKnownBy t f
        → f.setup ≡ setup
        → ((k : Kline N) → current ≡ some k → k.close_time ≤ t)
        → candidate_on N L config f setup target current ≡ some c
        → (k : Kline N) × (current ≡ some k) × IsShort t k c
    candidate_on-IsShort t f none target current c known found now e = absurd (ground arith)
    candidate_on-IsShort t f (some setup) none current c known found now e = absurd (ground arith)
    candidate_on-IsShort t f (some setup) (some target) none c known found now e =
        absurd (ground arith)
    candidate_on-IsShort t f (some setup) (some target) (some k) c known found now e =
        (k, refl, candidate_with-IsShort t f setup target k c known found (now k refl) e)

    -- A candidate of `evaluate_cm2_short` comes only with every required condition passed, and it is
    -- a short on the last usable bar of ETH: its stop is above that bar's close and its target below
    -- it, and it is available no earlier than the bar's close and no later than `as_of`.
    pub evaluate_cm2_short-IsShort :
        (i : Inputs N) (c : MicroSignalCandidate N)
        → (evaluate_cm2_short N L i config).candidate ≡ some c
        → (status_of (evaluate_cm2_short N L i config).conditions ≡ passed)
          × ((k : Kline N) × (get_last? (causal_bars N i.as_of "5m" i.eth_5m) ≡ some k)
              × IsShort i.as_of k c)
    unfolding evaluate_cm2_short candidate_of findings
    evaluate_cm2_short-IsShort i c e =
        let f = findings N L i config in
        elim (Bool-cases (all_passed f.conditions)) [
          | inr not_all ↦ absurd (ground (arith, not_all))
          | inl all ↦ (
            (status_of-all_passed f.conditions).0.1 all,
            candidate_on-IsShort i.as_of f f.setup f.target (get_last? f.bars_5m) c
                (findings-IsKnownBy i) refl
                (λ k last.
                  All-get_last? (λ (k : Kline N). k.close_time ≤ i.as_of) f.bars_5m k
                    (findings-IsKnownBy i).bars_5m last)
                (rw all at e),
          )
        ]
