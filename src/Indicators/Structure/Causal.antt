-- ===== src/Indicators/Structure/Causal.antt =====
-- No repainting: the states of past bars do not depend on later bars.
use protocol_monitor.Common.{
  ℕ, suc, ◌+◌, ◌-◌, ◌≤◌, ◌<◌, ◌≡◌, refl, true, List, [], ◌∷◌, ◌++◌, arith, Bool-cases, length,
  length-append, get_or-append, slice-append, ok, inl, inr, ap,
}
use protocol_monitor.Numbers.{Numbers, nought}
use protocol_monitor.Indicators.Structure.{
  Series, StructureState, Tracker, new_high, new_low, confirm, advance, series_from, window,
  candidate, previous_close, initial, detect_structure_series_values, has_pivot,
}

module _ (N : Numbers) where
  open N use {Float}

  -- The series with later bars appended.
  abbrev pub extend : Series N → (highs lows closes : List Float) → Series N
  extend s highs lows closes = record s {
    highs = s.highs ++ highs;
    lows = s.lows ++ lows;
    closes = s.closes ++ closes;
  }

  -- The three series have `n` bars, and the pivot widths are positive.
  pub record HasBars (s : Series N) (n : ℕ) : Type 0 where
    pub highs_len : length s.highs ≡ n
    pub lows_len : length s.lows ≡ n
    pub closes_len : length s.closes ≡ n
    pub left_pos : 1 ≤ s.pivot_left
    pub right_pos : 1 ≤ s.pivot_right

  module _ (s : Series N) (n index : ℕ) (bars : HasBars s n) (seen : index < n)
      (hs ls cs : List Float) where
    window-extend :
        (xs ys : List Float)
        → length xs ≡ n
        → has_pivot N s index ≡ true
        → window N (extend s hs ls cs) index (xs ++ ys) ≡ window N s index xs
    unfolding window
    window-extend xs ys len old = slice-append _ _ xs ys (ground arith)

    candidate-extend :
        (xs ys : List Float)
        → length xs ≡ n
        → candidate N (extend s hs ls cs) index (xs ++ ys) ≡ candidate N s index xs
    unfolding candidate
    candidate-extend xs ys len = get_or-append _ _ xs ys (ground arith)

    new_high-extend : new_high N (extend s hs ls cs) index ≡ new_high N s index
    unfolding new_high
    new_high-extend = elim (Bool-cases (has_pivot N s index)) [
      | inl old ↦ rw (
        old,
        window-extend s.highs hs bars.highs_len old,
        candidate-extend s.highs hs bars.highs_len,
      )
      | inr young ↦ rw young
    ]

    new_low-extend : new_low N (extend s hs ls cs) index ≡ new_low N s index
    unfolding new_low
    new_low-extend = elim (Bool-cases (has_pivot N s index)) [
      | inl old ↦
          rw (
            old,
            window-extend s.lows ls bars.lows_len old,
            candidate-extend s.lows ls bars.lows_len,
          )
      | inr young ↦ rw young
    ]

    confirm-extend : (t : Tracker N) → confirm N (extend s hs ls cs) index t ≡ confirm N s index t
    unfolding confirm
    confirm-extend t = rw (
      new_high-extend,
      new_low-extend,
      candidate-extend s.highs hs bars.highs_len,
      candidate-extend s.lows ls bars.lows_len,
    )

    previous_close-extend :
        (c : Float) → previous_close N (extend s hs ls cs) index c ≡ previous_close N s index c
    unfolding previous_close
    previous_close-extend c = rw (get_or-append (index - 1) (nought N) s.closes cs (ground arith))

    advance-extend :
        (c : Float) (t : Tracker N)
        → advance N (extend s hs ls cs) index c t ≡ advance N s index c t
    unfolding advance
    advance-extend c t = rw (
      new_high-extend,
      new_low-extend,
      confirm-extend t,
      previous_close-extend c,
      slice-append (index - 20) index s.highs hs (ground arith),
      slice-append (index - 20) index s.lows ls (ground arith),
    )

  module _ (s : Series N) (n : ℕ) (bars : HasBars s n) (hs ls cs : List Float) where
    -- The extended run is the old run, then a run over the later closes.
    series_from-extend :
        (rest : List Float) (index : ℕ) (t : Tracker N)
        → index + length rest ≡ n
        → let (states, final) = series_from N s index rest t in
          (series_from N (extend s hs ls cs) index (rest ++ cs) t).0
          ≡ states ++ (series_from N (extend s hs ls cs) n cs final).0
    unfolding series_from
    series_from-extend [] index t e = let at : index ≡ n = omega arith in rw at refl
    series_from-extend (c ∷ rest) index t e = rw (
      advance-extend s n index bars (omega arith) hs ls cs c t,
      series_from-extend rest (suc index) (advance N s index c t).1 (omega arith),
    )

  length-series_from :
      (s : Series N) (index : ℕ) (rest : List Float) (t : Tracker N)
      → length (series_from N s index rest t).0 ≡ length rest
  unfolding series_from
  length-series_from s index [] t = refl
  length-series_from s index (c ∷ rest) t =
      ap suc (length-series_from s (suc index) rest (advance N s index c t).1)

  -- The series has a result exactly for equal lengths and positive pivot widths.
  pub detect-ok :
      (s : Series N) {states : List (StructureState N)}
      → detect_structure_series_values N s ≡ ok states
      → HasBars s (length s.closes) × (states ≡ (series_from N s 0 s.closes (initial N)).0)
  unfolding detect_structure_series_values
  detect-ok s e = ground arith

  pub ok-detect :
      (s : Series N) {n : ℕ}
      → HasBars s n
      → detect_structure_series_values N s ≡ ok (series_from N s 0 s.closes (initial N)).0
  unfolding detect_structure_series_values
  ok-detect s bars = ground arith

  -- If the series of equal length have states, then with the same number of later bars appended to
  -- each there is one state for each bar, and the states of the earlier bars are the same.
  pub detect_structure_series_values-extend :
      (s : Series N) (hs ls cs : List Float) {states : List (StructureState N)}
      → length hs ≡ length cs
      → length ls ≡ length cs
      → detect_structure_series_values N s ≡ ok states
      → (later : List (StructureState N)) × (detect_structure_series_values N (extend s hs ls cs)
          ≡ ok (states ++ later))
        × (length states ≡ length s.closes)
        × (length later ≡ length cs)
  detect_structure_series_values-extend s hs ls cs eh el e =
      let (bars, run) = detect-ok s e in
      let n = length s.closes in
      let final = (series_from N s 0 s.closes (initial N)).1 in
      let more : HasBars (extend s hs ls cs) (n + length cs) = omega (
        arith,
        length-append s.highs hs,
        length-append s.lows ls,
        length-append s.closes cs,
        bars,
      ) in
      (
        (series_from N (extend s hs ls cs) n cs final).0,
        rw (
          ok-detect (extend s hs ls cs) more,
          run,
          series_from-extend s n bars hs ls cs s.closes 0 (initial N) (omega arith),
        ),
        rw run (length-series_from s 0 s.closes (initial N)),
        length-series_from (extend s hs ls cs) n cs final,
      )
