-- ===== src/Indicators/Structure/Tests.antt =====
-- Runs of the structure detection over scaled integers, and its theorems at them.
use protocol_monitor.Common.{
  ℕ, ◌*◌, ◌≡◌, refl, false, some, List, [], ◌∷◌, ◌++◌, map, length, slice, Result, ok, err,
}
use protocol_monitor.Common.Int.{ℤ, pos}
use protocol_monitor.Numbers.Fixed.{fixed, scale}
use protocol_monitor.Indicators.Structure.{
  Trend, up, range, Series, StructureState, Tracker, new_high, new_low, confirm, resolve, advance,
  series_from, window, candidate, previous_close, StructureError, initial,
  detect_structure_series_values, bad_pivots,
}
use protocol_monitor.Indicators.Structure.Causal.{extend, detect_structure_series_values-extend}
use protocol_monitor.Indicators.Structure.Breaks.{
  Explain, Follow, detect_structure_series_values-Explain,
}

abbrev prices : List ℕ → List ℤ
prices = map (λ n. pos (n * scale))

-- A swing high of 14 at bar 2, broken by the close of bar 5.
abbrev sample : Series fixed
sample = record {
  highs = prices (11 ∷ 12 ∷ 14 ∷ 13 ∷ 12 ∷ 16 ∷ []);
  lows = prices (9 ∷ 10 ∷ 11 ∷ 10 ∷ 9 ∷ 12 ∷ []);
  closes = prices (10 ∷ 11 ∷ 13 ∷ 12 ∷ 11 ∷ 15 ∷ []);
  pivot_left = 2;
  pivot_right = 2;
}

abbrev states : List (StructureState fixed)
states = (series_from fixed sample 0 sample.closes (initial fixed)).0

abbrev trends : Result StructureError (List (StructureState fixed)) → List Trend
trends (ok ss) = map (λ (s : StructureState fixed). s.trend) ss
trends (err _) = []

breaks_the_swing :
    trends (detect_structure_series_values fixed sample)
    ≡ range ∷ range ∷ range ∷ range ∷ range ∷ up ∷ []
unfolding detect_structure_series_values series_from advance confirm resolve new_high new_low window
    candidate previous_close slice
breaks_the_swing = refl

refuses_pivots :
    detect_structure_series_values fixed (record sample { pivot_left = 0 }) ≡ err bad_pivots
unfolding detect_structure_series_values
refuses_pivots = refl

detect_structure_series_values-extend_example :
    (later : List (StructureState fixed)) × (detect_structure_series_values fixed
        (extend fixed sample (prices (17 ∷ [])) (prices (13 ∷ [])) (prices (16 ∷ [])))
      ≡ ok (states ++ later))
    × (length states ≡ 6)
    × (length later ≡ 1)
unfolding detect_structure_series_values
detect_structure_series_values-extend_example =
    detect_structure_series_values-extend fixed sample (prices (17 ∷ [])) (prices (13 ∷ []))
      (prices (16 ∷ [])) refl refl refl

detect_structure_series_values-Explain_example :
    Explain fixed sample.closes states × Follow fixed range states
unfolding detect_structure_series_values
detect_structure_series_values-Explain_example =
    detect_structure_series_values-Explain fixed sample refl

-- The variables after five bars: the swing high of bar 2 is confirmed and not broken.
abbrev confirmed : Tracker fixed
confirmed = record (initial fixed) {
  last_swing_high = some (pos (14 * scale));
  high_is_broken = false;
}
