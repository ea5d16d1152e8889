-- ===== src/Indicators/Atr.antt =====
-- app/indicators/atr.py and app/indicators/vwap.py: the average true range, and the volume-weighted
-- average price.
use protocol_monitor.Common.{
  ℕ, ◌≡◌, true, List, [], ◌∷◌, ltb, if◌then◌else◌, length, take_last, All, All-take_last, arith,
  Bool-cases, inl, inr,
}
use protocol_monitor.Numbers.{Numbers, nought, fmax, fabs, fsum, fsum_from, truthy}
use protocol_monitor.Numbers.Laws.{IsOrdered, IsRounded, le_refl, le_of_not_lt, le-fmax_right}
use protocol_monitor.Market.Kline.{Kline}

module _ (N : Numbers) where
  open N use {Float, float, lit, add, sub, mul, div, lt, le}

  unfoldable pub true_range : Kline N → Kline N → Float
  true_range previous current =
      let high = float current.high in
      let low = float current.low in
      let prev_close = float previous.close in
      fmax N (fmax N (sub high low) (fabs N (sub high prev_close))) (fabs N (sub low prev_close))

  -- The loop over `zip(candles, candles[1:])`.
  unfoldable pub true_ranges : List (Kline N) → List Float
  true_ranges [] = []
  true_ranges (a ∷ []) = []
  true_ranges (a ∷ b ∷ rest) = true_range a b ∷ true_ranges (b ∷ rest)

  -- `sum(window) / len(window) if window else 0.0`
  abbrev pub average : List Float → Float
  average [] = nought N
  average (x ∷ xs) = div (fsum N (x ∷ xs)) (lit (length (x ∷ xs)) 0)

  -- `calculate_atr`; `period` is positive.
  unfoldable pub calculate_atr : List (Kline N) → ℕ → Float
  calculate_atr candles period =
      if ltb (length candles) 2 then nought N else average (take_last period (true_ranges candles))

  -- `calculate_vwap`, its loop from the two sums so far.
  pub vwap_from : Float → Float → List (Kline N) → Float
  vwap_from numerator denominator [] =
      if truthy N denominator then div numerator denominator else nought N
  vwap_from numerator denominator (candle ∷ rest) =
      let typical =
        div (add (add (float candle.high) (float candle.low)) (float candle.close)) (lit 3 0) in
      let volume = float candle.volume in
      vwap_from (add numerator (mul typical volume)) (add denominator volume) rest

  pub calculate_vwap : List (Kline N) → Float
  calculate_vwap = vwap_from (nought N) (nought N)

  module _ (order : IsOrdered N) (laws : IsRounded N) where
    abbrev IsNonneg : Float → Type 0
    IsNonneg x = le (nought N) x ≡ true

    fabs-IsNonneg : (a : Float) → IsNonneg (fabs N a)
    fabs-IsNonneg a = ground (arith, laws.neg_nonneg a, le_of_not_lt N order a (nought N))

    true_range-IsNonneg : (a b : Kline N) → IsNonneg (true_range a b)
    unfolding true_range
    true_range-IsNonneg a b = order.le_trans _ _ _ (fabs-IsNonneg _) (le-fmax_right N order _ _)

    true_ranges-IsNonneg : (candles : List (Kline N)) → All IsNonneg (true_ranges candles)
    unfolding true_ranges
    true_ranges-IsNonneg [] = tt
    true_ranges-IsNonneg (a ∷ []) = tt
    true_ranges-IsNonneg (a ∷ b ∷ rest) = (true_range-IsNonneg a b, true_ranges-IsNonneg (b ∷ rest))

    fsum_from-IsNonneg :
        (acc : Float) (xs : List Float)
        → IsNonneg acc
        → All IsNonneg xs
        → IsNonneg (fsum_from N acc xs)
    fsum_from-IsNonneg acc [] h a = h
    fsum_from-IsNonneg acc (x ∷ xs) h (p, ps) =
        fsum_from-IsNonneg (add acc x) xs (laws.add_nonneg acc x h p) ps

    average-IsNonneg : (xs : List Float) → All IsNonneg xs → IsNonneg (average xs)
    average-IsNonneg [] a = le_refl N order (nought N)
    average-IsNonneg (x ∷ xs) a =
        laws.div_nonneg _ _ (fsum_from-IsNonneg (nought N) (x ∷ xs) (le_refl N order (nought N)) a)
          (laws.lit_pos (length xs))

    -- The average true range is never negative, whatever the candles and the period.
    pub calculate_atr-IsNonneg :
        (candles : List (Kline N)) (period : ℕ) → IsNonneg (calculate_atr candles period)
    unfolding calculate_atr
    calculate_atr-IsNonneg candles period = elim (Bool-cases (ltb (length candles) 2)) [
      | inl short ↦ rw short (le_refl N order (nought N))
      | inr long ↦ rw long (
          average-IsNonneg _
            (All-take_last IsNonneg period (true_ranges candles) (true_ranges-IsNonneg candles)))
    ]
