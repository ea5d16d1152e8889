-- ===== src/Indicators/Structure/Totality.antt =====
-- When `detect_structure` does not raise.
use protocol_monitor.Common.{
  ℕ, ◌≤◌, ◌≡◌, refl, List, [], ◌∷◌, map, length, ltb, take_last, if◌then◌else◌, ok, arith,
}
use protocol_monitor.Numbers.{Numbers}
use protocol_monitor.Market.Kline.{Kline}
use protocol_monitor.Indicators.Structure.{
  Series, StructureState, series_from, initial, last_or_empty, detect_structure_values,
  detect_structure,
}
use protocol_monitor.Indicators.Structure.Causal.{HasBars, ok-detect}

length-map {ℓ κ} :
    {A : Type ℓ} {B : Type κ} (f : A → B) (xs : List A) → length (map f xs) ≡ length xs
length-map f [] = refl
length-map f (x ∷ xs) = ground (arith, length-map f xs)

module _ (N : Numbers) where
  values-ok :
      (s : Series N) {n : ℕ}
      → HasBars N s n
      → (state : StructureState N) × (detect_structure_values N s ≡ ok state)
  unfolding detect_structure_values
  values-ok s bars = (
    last_or_empty N (series_from N s 0 s.closes (initial N)).0,
    rw (ok-detect N s bars, detect_structure_values) refl,
  )

  -- With positive pivots there is a state for every list of candles.
  pub detect_structure-ok :
      (candles : List (Kline N)) (lookback pivot_left pivot_right : ℕ)
      → 1 ≤ pivot_left
      → 1 ≤ pivot_right
      → (state : StructureState N) × (detect_structure N candles lookback pivot_left pivot_right
          ≡ ok state)
  unfolding detect_structure
  detect_structure-ok candles lookback pivot_left pivot_right left right =
      let recent : List (Kline N) =
        if ltb 0 lookback then take_last lookback candles else candles in
      let s : Series N = record {
        highs = map (λ (c : Kline N). N.float c.high) recent;
        lows = map (λ (c : Kline N). N.float c.low) recent;
        closes = map (λ (c : Kline N). N.float c.close) recent;
        pivot_left = pivot_left;
        pivot_right = pivot_right;
      } in
      let bars : HasBars N s (length recent) = record {
        highs_len = length-map (λ (c : Kline N). N.float c.high) recent;
        lows_len = length-map (λ (c : Kline N). N.float c.low) recent;
        closes_len = length-map (λ (c : Kline N). N.float c.close) recent;
        left_pos = left;
        right_pos = right;
      } in
      values-ok s bars
