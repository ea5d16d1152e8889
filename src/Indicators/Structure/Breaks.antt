-- ===== src/Indicators/Structure/Breaks.antt =====
-- What the break flags of a state mean, bar by bar and along a series.
use protocol_monitor.Common.{
  ℕ, suc, ◌≡◌, ◌≢◌, refl, Bool, true, false, Option, none, some, List, [], ◌∷◌, arith, ok, ◌||◌,
  ◌&&◌,
}
use protocol_monitor.Numbers.{Numbers}
use protocol_monitor.Indicators.Structure.{
  Trend, up, down, range, Series, StructureState, Tracker, new_high, confirm, resolve, advance,
  series_from, initial, detect_structure_series_values,
}
use protocol_monitor.Indicators.Structure.Causal.{detect-ok}

module _ (N : Numbers) where
  open N use {Float, lt}

  abbrev pub breaks_up : StructureState N → Bool
  breaks_up s = s.bos_up || s.choch_up

  abbrev pub breaks_down : StructureState N → Bool
  breaks_down s = s.bos_down || s.choch_down

  -- There is a swing, and the close is above it, or below it.
  abbrev pub above : Float → Option Float → Bool
  above close none = false
  above close (some swing) = lt swing close

  abbrev pub below : Float → Option Float → Bool
  below close none = false
  below close (some swing) = lt close swing

  -- The flags of a state after a bar that closes at `close`: at most one is set, and a break needs a
  -- confirmed swing that the close has passed.
  pub record IsExplained (close : Float) (s : StructureState N) : Type 0 where
    pub up_swing : breaks_up s ≡ true → above close s.last_swing_high ≡ true
    pub down_swing : breaks_down s ≡ true → below close s.last_swing_low ≡ true
    pub up_confirmed : breaks_up s ≡ true → s.swing_high_confirmed ≡ true
    pub down_confirmed : breaks_down s ≡ true → s.swing_low_confirmed ≡ true
    pub one_way : breaks_up s && breaks_down s ≡ false
    pub one_up : s.bos_up && s.choch_up ≡ false
    pub one_down : s.bos_down && s.choch_down ≡ false

  -- The flags and the trend of a state after a state with trend `before`.
  pub record Turns (before : Trend) (s : StructureState N) : Type 0 where
    pub choch_up : s.choch_up ≡ true → (before ≡ down) × (s.trend ≡ up)
    pub choch_down : s.choch_down ≡ true → (before ≡ up) × (s.trend ≡ down)
    pub bos_up : s.bos_up ≡ true → (before ≢ down) × (s.trend ≡ up)
    pub bos_down : s.bos_down ≡ true → (before ≢ up) × (s.trend ≡ down)
    pub steady : breaks_up s ≡ false → breaks_down s ≡ false → s.trend ≡ before

  -- Each close explains its state.
  abbrev pub Explain : List Float → List (StructureState N) → Type 0
  Explain [] [] = Unit
  Explain (c ∷ cs) (s ∷ ss) = IsExplained c s × Explain cs ss
  Explain _ _ = ⊥

  abbrev pub Follow : Trend → List (StructureState N) → Type 0
  Follow before [] = Unit
  Follow before (s ∷ ss) = Turns before s × Follow s.trend ss

  module _ (s : Series N) (index : ℕ) (close : Float) (t : Tracker N) where
    advance-Turns : Turns t.trend (advance N s index close t).0
    unfolding advance resolve confirm
    advance-Turns = ground arith

    advance-IsExplained : IsExplained close (advance N s index close t).0
    unfolding advance resolve
    advance-IsExplained = ground arith

  series_from-Explain :
      (s : Series N) (index : ℕ) (rest : List Float) (t : Tracker N)
      → Explain rest (series_from N s index rest t).0
  unfolding series_from
  series_from-Explain s index [] t = tt
  series_from-Explain s index (c ∷ rest) t = (
    advance-IsExplained s index c t,
    series_from-Explain s (suc index) rest (advance N s index c t).1,
  )

  advance-trend :
      (s : Series N) (index : ℕ) (close : Float) (t : Tracker N)
      → (advance N s index close t).0.trend ≡ (advance N s index close t).1.trend
  unfolding advance
  advance-trend s index close t = refl

  series_from-Follow :
      (s : Series N) (index : ℕ) (rest : List Float) (t : Tracker N)
      → Follow t.trend (series_from N s index rest t).0
  unfolding series_from
  series_from-Follow s index [] t = tt
  series_from-Follow s index (c ∷ rest) t = (
    advance-Turns s index c t,
    rw (advance-trend s index c t)
        (series_from-Follow s (suc index) rest (advance N s index c t).1),
  )

  -- In the states of a series each bar sets at most one of the four flags, a flag is set only where
  -- a pivot is confirmed and the close is beyond the swing of the state, and beginning from the
  -- range a CHoCH flag reverses the trend of the bar before, a BOS flag continues it or starts one,
  -- and the trend stays where no flag is set.
  pub detect_structure_series_values-Explain :
      (s : Series N) {states : List (StructureState N)}
      → detect_structure_series_values N s ≡ ok states
      → Explain s.closes states × Follow range states
  detect_structure_series_values-Explain s e =
      rw ((detect-ok N s e).1)
        (series_from-Explain s 0 s.closes (initial N), series_from-Follow s 0 s.closes (initial N))

  -- A swing high that was broken is not broken again before a new pivot is confirmed, and a bar that
  -- breaks it leaves it broken.
  pub advance-high_is_broken :
      (s : Series N) (index : ℕ) (close : Float) (t : Tracker N)
      → let (state, next) = advance N s index close t in
        (t.high_is_broken ≡ true → new_high N s index ≡ false → breaks_up state ≡ false)
        × (breaks_up state ≡ true → next.high_is_broken ≡ true)
        × (breaks_up state ≡ false → next.high_is_broken ≡ true → t.high_is_broken ≡ true)
  unfolding advance resolve confirm
  advance-high_is_broken s index close t = ground arith
