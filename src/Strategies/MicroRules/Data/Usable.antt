-- ===== src/Strategies/MicroRules/Data/Usable.antt =====
-- The times of usable data.
use protocol_monitor.Common.{
  ℕ, ◌≤◌, ◌≡◌, refl, String, true, Option, none, some, List, [], ◌∷◌, keep, get_last?, All, arith,
  ltb, leb, Bool-cases, ◌||◌, inl, inr, length,
}
use mathlib.Core.Path.{subst}
use mathlib.Core.Option.{some-injective}
use protocol_monitor.Numbers.{Numbers, nought}
use protocol_monitor.Market.Kline.{Kline, DateTime}
use protocol_monitor.Strategies.MicroRules.{Library, OpenInterestPoint, FundingPoint, is_usable_bar}
use protocol_monitor.Strategies.MicroRules.Numeric.Laws.{All-keep, All-sorted_by, All-get_last?}
use protocol_monitor.Strategies.MicroRules.Data.{
  bar_before, causal_bars, is_usable_oi, causal_oi_points, OpenInterestWashout, oi_changes,
  washout_of, washout_with, oi_washout, is_usable_funding, causal_funding_points, latest_funding,
}

module _ (N : Numbers) where
  abbrev IsClosedBy : DateTime → Kline N → Type 0
  IsClosedBy as_of k = k.close_time ≤ as_of

  weaken :
      (as_of : DateTime) (interval : String) (bars : List (Kline N))
      → All (λ (k : Kline N). is_usable_bar N as_of interval k ≡ true) bars
      → All (IsClosedBy as_of) bars
  weaken as_of interval [] h = tt
  weaken as_of interval (k ∷ ks) (h, hs) = (ground arith, weaken as_of interval ks hs)

  pub causal_bars-IsClosedBy :
      (as_of : DateTime) (interval : String) (bars : List (Kline N))
      → All (λ (k : Kline N). k.close_time ≤ as_of) (causal_bars N as_of interval bars)
  unfolding causal_bars
  causal_bars-IsClosedBy as_of interval bars =
      All-sorted_by (IsClosedBy as_of) (bar_before N) (keep (is_usable_bar N as_of interval) bars)
        (weaken as_of interval _ (All-keep (is_usable_bar N as_of interval) bars))

  module _ (L : Library N) where
    All-funding :
        (as_of : DateTime) (points : List (FundingPoint N))
        → All (λ (p : FundingPoint N). is_usable_funding N L as_of p ≡ true) points
        → All (λ (p : FundingPoint N). p.available_at ≤ as_of) points
    All-funding as_of [] h = tt
    All-funding as_of (p ∷ ps) (h, hs) = (ground arith, All-funding as_of ps hs)

    pub latest_funding-available :
        (as_of : DateTime) (points : List (FundingPoint N)) (p : FundingPoint N)
        → latest_funding N L as_of points ≡ some p
        → p.available_at ≤ as_of
    unfolding latest_funding causal_funding_points
    latest_funding-available as_of points p e =
        All-get_last? (λ (p : FundingPoint N). p.available_at ≤ as_of)
          (causal_funding_points N L as_of points) p
          (All-sorted_by (λ (p : FundingPoint N). p.available_at ≤ as_of) _ _
            (All-funding as_of _ (All-keep (is_usable_funding N L as_of) points)))
          e

    All-oi :
        (as_of : DateTime) (points : List (OpenInterestPoint N))
        → All (λ (p : OpenInterestPoint N). is_usable_oi N L as_of p ≡ true) points
        → All (λ (p : OpenInterestPoint N). p.available_at ≤ as_of) points
    All-oi as_of [] h = tt
    All-oi as_of (p ∷ ps) (h, hs) = (ground arith, All-oi as_of ps hs)

    pub causal_oi_points-available :
        (as_of : DateTime) (points : List (OpenInterestPoint N))
        → All
            (λ (p : OpenInterestPoint N). p.available_at ≤ as_of)
            (causal_oi_points N L as_of points)
    unfolding causal_oi_points
    causal_oi_points-available as_of points =
        All-sorted_by (λ (p : OpenInterestPoint N). p.available_at ≤ as_of) _ _
          (All-oi as_of _ (All-keep (is_usable_oi N L as_of) points))

    All-oi_changes :
        (t : DateTime) (points : List (OpenInterestPoint N))
        → All (λ (p : OpenInterestPoint N). p.available_at ≤ t) points
        → All (λ (c : OpenInterestPoint N × N.Float). c.0.available_at ≤ t) (oi_changes N L points)
    unfolding oi_changes
    All-oi_changes t [] h = tt
    All-oi_changes t (a ∷ []) h = tt
    All-oi_changes t (a ∷ b ∷ rest) (ha, (hb, hs)) =
        let later = All-oi_changes t (b ∷ rest) (hb, hs) in
        elim (Bool-cases (N.le a.contracts (nought N) || N.le b.contracts (nought N))) [
          | inl skip ↦ rw skip later
          | inr keep ↦ rw keep (hb, later)
        ]

    washout_with-available :
        (t : DateTime) (change : Option (OpenInterestPoint N × N.Float)) (history : List N.Float)
        (minimum : ℕ) (quantile : N.Float) (w : OpenInterestWashout N)
        → ((c : OpenInterestPoint N × N.Float) → change ≡ some c → c.0.available_at ≤ t)
        → washout_with N L change history minimum quantile ≡ some w
        → w.available_at ≤ t
    unfolding washout_of
    washout_with-available t none history minimum quantile w h e = absurd (ground arith)
    washout_with-available t (some c) [] minimum quantile w h e = absurd (ground arith)
    washout_with-available t (some (p, c)) (x ∷ xs) minimum quantile w h e =
        elim (Bool-cases (ltb (length (x ∷ xs)) minimum)) [
          | inl few ↦ absurd (ground (arith, few))
          | inr enough ↦
              subst (λ (w : OpenInterestWashout N). w.available_at ≤ t)
                (some-injective _ _ (rw enough at e)) (h (p, c) refl)
        ]

    -- A washout is available when it is computed.
    pub oi_washout-available :
        (points : List (OpenInterestPoint N)) (t : DateTime) (lookback minimum : ℕ)
        (quantile : N.Float) (w : OpenInterestWashout N)
        → oi_washout N L points t lookback minimum quantile ≡ some w
        → w.available_at ≤ t
    unfolding oi_washout
    oi_washout-available points t lookback minimum quantile w e =
        let changes = oi_changes N L (causal_oi_points N L t points) in
        elim (Bool-cases (leb (length changes) minimum)) [
          | inl few ↦ absurd (ground (arith, few))
          | inr enough ↦
              washout_with-available t (get_last? changes) _ minimum quantile w
                (λ c last.
                  All-get_last? (λ (c : OpenInterestPoint N × N.Float). c.0.available_at ≤ t)
                    changes c (All-oi_changes t _ (causal_oi_points-available t points)) last)
                (rw enough at e)
        ]
