-- ===== src/Strategies/MicroRules/Context/Washout.antt =====
-- The time of the washout near a sweep.
use protocol_monitor.Common.{
  ℕ, ◌≤◌, ◌≡◌, some, List, [], ◌∷◌, take, suc, ◌+◌, All, arith, ltb, Bool-cases, Option-cases, inl,
  inr,
}
use mathlib.Core.Path.{subst}
use mathlib.Core.Option.{some-injective}
use protocol_monitor.Numbers.{Numbers}
use protocol_monitor.Market.Kline.{Kline, DateTime}
use protocol_monitor.Strategies.MicroRules.{Library, OpenInterestPoint, CryptoMicroRuleConfig}
use protocol_monitor.Strategies.MicroRules.Data.{OpenInterestWashout, causal_oi_points}
use protocol_monitor.Strategies.MicroRules.Data.Usable.{
  causal_oi_points-available, oi_washout-available,
}
use protocol_monitor.Strategies.MicroRules.Context.{
  least_from, least_washout, washout_at, washouts_from, oi_washout_near_sweep,
}

module _ (N : Numbers) where
  open N use {lt}

  abbrev IsWashedBy : DateTime → OpenInterestWashout N → Type 0
  IsWashedBy t w = w.available_at ≤ t

  least_from-IsWashedBy :
      (t : DateTime) (best : OpenInterestWashout N) (ws : List (OpenInterestWashout N))
      → IsWashedBy t best
      → All (IsWashedBy t) ws
      → IsWashedBy t (least_from N best ws)
  least_from-IsWashedBy t best [] h hs = h
  least_from-IsWashedBy t best (w ∷ ws) h (k, hs) =
      elim (Bool-cases (lt w.robust_z best.robust_z)) [
        | inl less ↦ rw (less, least_from) (least_from-IsWashedBy t w ws k hs)
        | inr more ↦ rw (more, least_from) (least_from-IsWashedBy t best ws h hs)
      ]

  least_washout-IsWashedBy :
      (t : DateTime) (ws : List (OpenInterestWashout N)) (w : OpenInterestWashout N)
      → All (IsWashedBy t) ws
      → least_washout N ws ≡ some w
      → IsWashedBy t w
  least_washout-IsWashedBy t [] w h e = absurd (ground arith)
  least_washout-IsWashedBy t (v ∷ vs) w (h, hs) e =
      subst (IsWashedBy t) (some-injective _ _ e) (least_from-IsWashedBy t v vs h hs)

  module _ (L : Library N) (config : CryptoMicroRuleConfig N) where
    washout_at-IsWashedBy :
        (t : DateTime) (causal : List (OpenInterestPoint N)) (cutoff : DateTime) (index : ℕ)
        (point : OpenInterestPoint N) (w : OpenInterestWashout N)
        → point.available_at ≤ t
        → washout_at N L causal cutoff config index point ≡ some w
        → IsWashedBy t w
    unfolding washout_at
    washout_at-IsWashedBy t causal cutoff index point w h e =
        elim (Bool-cases (ltb point.observed_at cutoff)) [
          | inl early ↦ absurd (ground (arith, early))
          | inr late ↦
              let by =
                oi_washout-available N L (take (index + 1) causal) point.available_at
                  config.oi_lookback config.oi_min_history config.lower_quantile w (rw late at e) in
              omega arith
        ]

    washouts_from-IsWashedBy :
        (t : DateTime) (causal : List (OpenInterestPoint N)) (cutoff : DateTime) (index : ℕ)
        (points : List (OpenInterestPoint N))
        → All (λ (p : OpenInterestPoint N). p.available_at ≤ t) points
        → All (IsWashedBy t) (washouts_from N L causal cutoff config index points)
    unfolding washouts_from
    washouts_from-IsWashedBy t causal cutoff index [] h = tt
    washouts_from-IsWashedBy t causal cutoff index (p ∷ ps) (h, hs) =
        let later = washouts_from-IsWashedBy t causal cutoff (suc index) ps hs in
        elim (Option-cases (washout_at N L causal cutoff config index p)) [
          | inl missing ↦ rw (missing, All) later
          | inr (w, found) ↦
              rw (found, All) (washout_at-IsWashedBy t causal cutoff index p w h found, later)
        ]

    -- The washout near a sweep is available by `as_of`.
    pub oi_washout_near_sweep-available :
        (points : List (OpenInterestPoint N)) (t : DateTime) (bar : Kline N)
        (w : OpenInterestWashout N)
        → oi_washout_near_sweep N L points t bar config ≡ some w
        → w.available_at ≤ t
    unfolding oi_washout_near_sweep
    oi_washout_near_sweep-available points t bar w e =
        let causal = causal_oi_points N L t points in
        least_washout-IsWashedBy t _ w
          (washouts_from-IsWashedBy t causal bar.open_time 0 causal
            (causal_oi_points-available N L t points))
          e
