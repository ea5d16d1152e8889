-- ===== src/Strategies/OrbRetest/Broken.antt =====
-- When the opening range was broken, in a watch of the later candles.
use protocol_monitor.Common.{
  ℕ, suc, ◌+◌, ◌<◌, ◌≡◌, ◌⊎◌, ◌∙◌, refl, ap, Option, none, some, List, [], ◌∷◌, ◌++◌, get_elem?,
  take, Option-cases, inl, inr, arith,
}
use mathlib.Core.List.{append_assoc, append-nil}
use mathlib.Core.Option.{some-injective}
use protocol_monitor.Numbers.{Numbers}
use protocol_monitor.Backtest.Engine.{Direction}
use protocol_monitor.Strategies.OrbRetest.{
  OrbRetestConfig, Row, Clock, Base, vwap, break_of, next_break,
}

module _ (N : Numbers) (clock : Clock) (mean : List N.Float → N.Float) (config : OrbRetestConfig N)
    (candles : List (Row N)) (sector : Option N.Float) (base : Base N) where
  -- The range was broken in the direction before the later candle `i`: by the break given, or by an
  -- earlier one of the later candles.
  abbrev pub IsBroken :
      List (Row N) → Option (Direction × ℕ) → ℕ → List (Row N) → ℕ → Direction → Type 0
  IsBroken cumulative broken index later i direction =
      ((k : ℕ) × (broken ≡ some (direction, k)) × (k < index + i))
      ⊎ ((j : ℕ) × (b : Row N) × (j < i)
          × (get_elem? later j ≡ some b)
          × (break_of N base sector b (vwap N (cumulative ++ take j later) b) ≡ some direction))

  next_break-IsBroken :
      (cumulative : List (Row N)) (broken : Option (Direction × ℕ)) (index : ℕ) (c : Row N)
      (cs : List (Row N)) (i k : ℕ) (direction : Direction)
      → next_break N clock mean config candles sector base broken index c (vwap N cumulative c)
        ≡ some (direction, k)
      → k < suc index + i
      → IsBroken cumulative broken index (c ∷ cs) (suc i) direction
  next_break-IsBroken cumulative (some b) index c cs i k direction e h = inl (k, e, omega arith)
  next_break-IsBroken cumulative none index c cs i k direction e h =
      elim (Option-cases (break_of N base sector c (vwap N cumulative c))) [
        | inl missing ↦ absurd (ground (arith, missing))
        | inr (d, found) ↦
            let same = some-injective _ _ (rw (next_break, found) at e) in
            inr (
              0,
              c,
              omega arith,
              refl,
              rw (append-nil cumulative) (found ∙ ap (λ (x : Direction × ℕ). some (x.0)) same),
            )
      ]

  pub IsBroken-suc :
      (cumulative : List (Row N)) (broken : Option (Direction × ℕ)) (index : ℕ) (c : Row N)
      (cs : List (Row N)) (i : ℕ) (direction : Direction)
      → IsBroken
          (cumulative ++ (c ∷ []))
          (next_break N clock mean config candles sector base broken index c (vwap N cumulative c))
          (suc index)
          cs
          i
          direction
      → IsBroken cumulative broken index (c ∷ cs) (suc i) direction
  IsBroken-suc cumulative broken index c cs i direction (inl (k, e, h)) =
      next_break-IsBroken cumulative broken index c cs i k direction e h
  IsBroken-suc cumulative broken index c cs i direction (inr (j, b, below, at, breaks)) =
      inr (suc j, b, omega arith, at, rw (append_assoc cumulative (c ∷ []) (take j cs)) at breaks)
