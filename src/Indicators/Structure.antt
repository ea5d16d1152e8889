-- ===== src/Indicators/Structure.antt =====
-- Market structure (app/indicators/structure.py): swing pivots, breaks of structure (BOS) and
-- changes of character (CHoCH), computed causally over series of highs, lows and closes.
pub mod Causal
pub mod Breaks
pub mod Totality
mod Tests
use protocol_monitor.Common.{
  ℕ, suc, ◌+◌, ◌-◌, ◌≡◌, Bool, true, false, not, ◌&&◌, ◌||◌, Option, none, some, List, [], ◌∷◌, map,
  ltb, leb, ◌==◌, if◌then◌else◌, length, get_or, slice, get_last?, take_last, Result, ok, err,
}
use protocol_monitor.Numbers.{Numbers, nought, fmax_from, fmin_from}
use protocol_monitor.Market.Kline.{Kline}

pub data Trend : Type 0 where
  up down range : Trend

abbrev pub is_up : Trend → Bool
is_up up = true
is_up _ = false

abbrev pub is_down : Trend → Bool
is_down down = true
is_down _ = false

-- The two exceptions of `detect_structure_series_values`.
pub data StructureError : Type 0 where
  unequal_lengths bad_pivots : StructureError

-- The events of one bar.
pub record Events : Type 0 where
  pub bos_up : Bool
  pub bos_down : Bool
  pub choch_up : Bool
  pub choch_down : Bool

abbrev pub no_events : Events
no_events = record { bos_up = false; bos_down = false; choch_up = false; choch_down = false }

pub record StructureState (N : Numbers) : Type 0 where
  pub trend : Trend
  pub bos_up : Bool
  pub bos_down : Bool
  pub choch_up : Bool
  pub choch_down : Bool
  pub last_swing_high : Option N.Float
  pub last_swing_low : Option N.Float
  pub swing_high_confirmed : Bool
  pub swing_low_confirmed : Bool

-- The variables that the loop carries from one candle to the next.
pub record Tracker (N : Numbers) : Type 0 where
  pub trend : Trend
  pub last_swing_high : Option N.Float
  pub last_swing_low : Option N.Float
  pub high_is_broken : Bool
  pub low_is_broken : Bool

pub record Series (N : Numbers) : Type 0 where
  pub highs : List N.Float
  pub lows : List N.Float
  pub closes : List N.Float
  pub pivot_left : ℕ
  pub pivot_right : ℕ

abbrev pub is_some {ℓ} : {A : Type ℓ} → Option A → Bool
is_some none = false
is_some (some _) = true

module _ (N : Numbers) where
  open N use {Float, float, lt, le, eq}

  -- `xs.count(x)`
  abbrev pub count : Float → List Float → ℕ
  count x [] = 0
  count x (y ∷ ys) = if eq y x then suc (count x ys) else count x ys

  -- `max(xs)`; the windows of the code are never empty.
  abbrev pub max_of : List Float → Option Float
  max_of [] = none
  max_of (x ∷ xs) = some (fmax_from N x xs)

  abbrev pub min_of : List Float → Option Float
  min_of [] = none
  min_of (x ∷ xs) = some (fmin_from N x xs)

  abbrev pub eq_some : Float → Option Float → Bool
  eq_some x none = false
  eq_some x (some y) = eq x y

  -- A candidate is a pivot if it is the only extreme of its window.
  abbrev pub is_pivot : Float → Option Float → List Float → Bool
  is_pivot candidate extreme window = eq_some candidate extreme && count candidate window == 1

  -- The window around the candidate of bar `index`, and the candidate: a pair for the highs or lows.
  unfoldable pub window : Series N → ℕ → List Float → List Float
  window s index values =
      let confirmed = index - s.pivot_right in
      slice (confirmed - s.pivot_left) (confirmed + s.pivot_right + 1) values

  unfoldable pub candidate : Series N → ℕ → List Float → Float
  candidate s index values = get_or values (index - s.pivot_right) (nought N)

  -- `confirmed_index >= pivot_left`
  abbrev pub has_pivot : Series N → ℕ → Bool
  has_pivot s index = leb (s.pivot_left + s.pivot_right) index

  unfoldable pub new_high : Series N → ℕ → Bool
  new_high s index =
      has_pivot s index
      && is_pivot (candidate s index s.highs) (max_of (window s index s.highs))
          (window s index s.highs)

  unfoldable pub new_low : Series N → ℕ → Bool
  new_low s index =
      has_pivot s index
      && is_pivot (candidate s index s.lows) (min_of (window s index s.lows))
          (window s index s.lows)

  -- Lines 85 to 100: a confirmed pivot becomes the last swing, not broken yet.
  unfoldable pub confirm : Series N → ℕ → Tracker N → Tracker N
  confirm s index t =
      let high = new_high s index in
      let low = new_low s index in
      record t {
        last_swing_high = if high then some (candidate s index s.highs) else t.last_swing_high;
        high_is_broken = if high then false else t.high_is_broken;
        last_swing_low = if low then some (candidate s index s.lows) else t.last_swing_low;
        low_is_broken = if low then false else t.low_is_broken;
      }

  -- Lines 104 to 109, on the swing after `confirm`.
  abbrev pub breaks_high : Option Float → Bool → Float → Float → Bool → Bool
  breaks_high none broken close previous fresh = false
  breaks_high (some swing) broken close previous fresh =
      not broken && (lt swing close && (le previous swing || fresh))

  -- Lines 110 to 115.
  abbrev pub breaks_low : Option Float → Bool → Float → Float → Bool → Bool
  breaks_low none broken close previous fresh = false
  breaks_low (some swing) broken close previous fresh =
      not broken && (lt close swing && (le swing previous || fresh))

  -- Lines 117 to 130: `up_break` and `down_break` are `breaks_high` and `breaks_low`.
  unfoldable pub resolve : Bool → Bool → Tracker N → Events × Tracker N
  resolve up_break down_break t =
      if up_break
      then (
        if is_down t.trend
            then record no_events { choch_up = true }
            else record no_events { bos_up = true },
        record t { trend = up; high_is_broken = true },
      )
      else if down_break
      then (
        if is_up t.trend
            then record no_events { choch_down = true }
            else record no_events { bos_down = true },
        record t { trend = down; low_is_broken = true },
      )
      else (no_events, t)

  -- Lines 132 to 138: before the first pivot the reference is the extreme of up to 20 bars before.
  abbrev pub reference : (List Float → Option Float) → ℕ → Option Float → List Float → Option Float
  reference extreme index swing values =
      if ltb 0 index && not (is_some swing)
      then extreme (slice (index - 20) index values)
      else swing

  unfoldable pub previous_close : Series N → ℕ → Float → Float
  previous_close s index close_value =
      if index == 0 then close_value else get_or s.closes (index - 1) (nought N)

  -- One round of the loop, at bar `index` with its close.
  unfoldable pub advance : Series N → ℕ → Float → Tracker N → StructureState N × Tracker N
  advance s index close_value t =
      let c = confirm s index t in
      let previous = previous_close s index close_value in
      let up_break =
        breaks_high c.last_swing_high c.high_is_broken close_value previous (new_high s index) in
      let down_break =
        breaks_low c.last_swing_low c.low_is_broken close_value previous (new_low s index) in
      let (events, next) = resolve up_break down_break c in
      (
        record {
          trend = next.trend;
          bos_up = events.bos_up;
          bos_down = events.bos_down;
          choch_up = events.choch_up;
          choch_down = events.choch_down;
          last_swing_high = reference max_of index next.last_swing_high s.highs;
          last_swing_low = reference min_of index next.last_swing_low s.lows;
          swing_high_confirmed = is_some next.last_swing_high;
          swing_low_confirmed = is_some next.last_swing_low;
        },
        next,
      )

  -- The loop over `enumerate(closes)`, from bar `index` on: the states, and the variables at the end.
  unfoldable pub series_from :
      Series N → ℕ → List Float → Tracker N → List (StructureState N) × Tracker N
  series_from s index [] t = ([], t)
  series_from s index (c ∷ cs) t =
      let (state, next) = advance s index c t in
      let (states, final) = series_from s (suc index) cs next in (state ∷ states, final)

  abbrev pub initial : Tracker N
  initial = record {
    trend = range;
    last_swing_high = none;
    last_swing_low = none;
    high_is_broken = true;
    low_is_broken = true;
  }

  -- `detect_structure_series_values`; a pivot width below 1 stands as 0.
  unfoldable pub detect_structure_series_values :
      Series N → Result StructureError (List (StructureState N))
  detect_structure_series_values s =
      if not (length s.highs == length s.lows && length s.lows == length s.closes)
      then err unequal_lengths
      else if ltb s.pivot_left 1 || ltb s.pivot_right 1
      then err bad_pivots
      else ok (series_from s 0 s.closes initial).0

  pub empty_state : StructureState N
  empty_state = record {
    trend = range;
    bos_up = false;
    bos_down = false;
    choch_up = false;
    choch_down = false;
    last_swing_high = none;
    last_swing_low = none;
    swing_high_confirmed = false;
    swing_low_confirmed = false;
  }

  abbrev last_or_empty : List (StructureState N) → StructureState N
  last_or_empty states = elim (get_last? states) [ none ↦ empty_state | some s ↦ s ]

  unfoldable pub detect_structure_values : Series N → Result StructureError (StructureState N)
  detect_structure_values s = elim (detect_structure_series_values s) [
    | ok states ↦ ok (last_or_empty states)
    | err e ↦ err e
  ]

  -- `detect_structure`; `lookback` is not negative.
  unfoldable pub detect_structure :
      List (Kline N) → ℕ → ℕ → ℕ → Result StructureError (StructureState N)
  detect_structure candles lookback pivot_left pivot_right =
      let recent = if ltb 0 lookback then take_last lookback candles else candles in
      detect_structure_values (record {
        highs = map (λ (c : Kline N). float c.high) recent;
        lows = map (λ (c : Kline N). float c.low) recent;
        closes = map (λ (c : Kline N). float c.close) recent;
        pivot_left = pivot_left;
        pivot_right = pivot_right;
      })
