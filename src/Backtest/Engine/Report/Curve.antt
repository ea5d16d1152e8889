-- ===== src/Backtest/Engine/Report/Curve.antt =====
-- The equity curve, its drawdown, and the total behaviour of `run`.
use protocol_monitor.Common.{
  ℕ, suc, ◌≤◌, ◌<◌, ◌≡◌, refl, true, false, List, [], ◌∷◌, ◌++◌, arith, length, ap, All, Bool-cases,
  inl, inr, ok, err, ◌>>=◌, ltb, ◌⊎◌, ◌&&◌, Option, none, some, Option-cases,
}
use protocol_monitor.Common.Int.{ℤ}
use protocol_monitor.Numbers.{Numbers, nought, fmax, fmax_from}
use protocol_monitor.Numbers.Laws.{IsOrdered, le_refl, le-fmax_left, le-fmax_right}
use protocol_monitor.Market.Kline.{Kline}
use protocol_monitor.Backtest.Engine.{
  overflow, EntryIntent, FundingRate, BacktestConfig, BacktestTrade, sorted_intents,
}
use protocol_monitor.Backtest.Engine.Schedule.{Laid, run_from-Laid, Laid-le}
use protocol_monitor.Backtest.Engine.Report.{
  Statistics, BacktestResult, drawdown_from, max_drawdown, curve_from, mark_to_market_curve, settle,
  mark_bar, growth_per_year, annualized_of, compound_all, elapsed_days, result, report, run,
}

module _ (N : Numbers) (laws : IsOrdered N) where
  open N use {Float, sub, div, lt, le}
  open laws use {le_trans}

  le-drawdown_from :
      (curve : List Float) (peak maximum : Float)
      → le maximum (drawdown_from N peak maximum curve) ≡ true
  unfolding drawdown_from
  le-drawdown_from [] peak maximum = le_refl N laws maximum
  le-drawdown_from (e ∷ rest) peak maximum =
      let top = fmax N peak e in
      let fall = div (sub top e) top in
      elim (Bool-cases (lt (nought N) top)) [
        | inl positive ↦ rw positive (
            le_trans maximum (fmax N maximum fall) _ (le-fmax_left N laws maximum fall)
              (le-drawdown_from rest top (fmax N maximum fall)))
        | inr flat ↦ rw flat (le-drawdown_from rest top maximum)
      ]

  drawdown_from_bound :
      (before : List Float) (e : Float) (after : List Float) (peak maximum : Float)
      → let top = fmax N (fmax_from N peak before) e in
        lt (nought N) top ≡ true
        → le (div (sub top e) top) (drawdown_from N peak maximum (before ++ (e ∷ after))) ≡ true
  unfolding drawdown_from
  drawdown_from_bound [] e after peak maximum positive =
      let top = fmax N peak e in
      let fall = div (sub top e) top in
      rw (positive, drawdown_from)
        (le_trans fall (fmax N maximum fall) _ (le-fmax_right N laws maximum fall)
          (le-drawdown_from after top (fmax N maximum fall)))
  drawdown_from_bound (x ∷ before) e after peak maximum positive =
      drawdown_from_bound before e after (fmax N peak x) _ positive

  -- The maximum drawdown of a curve is not negative, and at every point where the highest value so
  -- far is positive it is at least the fall from that value as a fraction of it.
  pub max_drawdown_bound :
      (before : List Float) (e : Float) (after : List Float)
      → let top = fmax N (fmax_from N (nought N) before) e in
        let drawdown = max_drawdown N (before ++ (e ∷ after)) in
        (le (nought N) drawdown ≡ true)
        × (lt (nought N) top ≡ true → le (div (sub top e) top) drawdown ≡ true)
  unfolding max_drawdown
  max_drawdown_bound before e after = (
    le-drawdown_from (before ++ (e ∷ after)) (nought N) (nought N),
    drawdown_from_bound before e after (nought N) (nought N),
  )

  curve_from-nonneg :
      (bars : List (Kline N)) (equity : Float) (trades : List (BacktestTrade N))
      → All (λ (e : Float). le (nought N) e ≡ true) (curve_from N equity bars trades)
  unfolding curve_from
  curve_from-nonneg [] equity trades = tt
  curve_from-nonneg (bar ∷ bars) equity trades =
      let (settled, waiting) = settle N bar.open_time equity trades in
      let (mark, booked, left) = mark_bar N bar settled waiting in
      (le-fmax_right N laws mark (nought N), curve_from-nonneg bars booked left)

  -- From a starting equity that is not negative no point of the equity curve is negative.
  pub mark_to_market_curve-nonneg :
      (config : BacktestConfig N) (bars : List (Kline N)) (trades : List (BacktestTrade N))
      → le (nought N) config.starting_equity ≡ true
      → All (λ (e : Float). le (nought N) e ≡ true) (mark_to_market_curve N config bars trades)
  unfolding mark_to_market_curve
  mark_to_market_curve-nonneg config bars trades h =
      (h, curve_from-nonneg bars config.starting_equity trades)

module _ (N : Numbers) where
  open N use {Float}

  length-curve_from :
      (bars : List (Kline N)) (equity : Float) (trades : List (BacktestTrade N))
      → length (curve_from N equity bars trades) ≡ length bars
  unfolding curve_from
  length-curve_from [] equity trades = refl
  length-curve_from (bar ∷ bars) equity trades =
      let (settled, waiting) = settle N bar.open_time equity trades in
      let (mark, booked, left) = mark_bar N bar settled waiting in
      ap suc (length-curve_from bars booked left)

module _ (N : Numbers) (S : Statistics N) (config : BacktestConfig N) where
  open N use {Float, lit, sub, lt, eq}

  -- The annualized return of the equity over the days overflows.
  abbrev pub Overflows : Float → Float → Type 0
  Overflows equity days =
      (lt (nought N) days ≡ true)
      × (lt (nought N) equity ≡ true)
      × (growth_per_year N S config equity days ≡ none)

  -- The result `r` of a run over the bars with these trades: its equity curve begins with the
  -- starting equity and has one more point for each bar.
  abbrev pub Reports : List (Kline N) → List (BacktestTrade N) → BacktestResult N → Type 0
  Reports bars trades r =
      (r.trades ≡ trades)
      × ((points : List Float) × (r.equity_curve ≡ config.starting_equity ∷ points)
          × (length points ≡ length bars))

  annualized_of-cases :
      (equity days : Float)
      → ((annualized_of N S config equity days ≡ err overflow) × Overflows equity days)
        ⊎ ((a : Option Float) × (annualized_of N S config equity days ≡ ok a)
            × (¬ Overflows equity days))
  annualized_of-cases equity days = elim (Bool-cases (lt (nought N) days && lt (nought N) equity)) [
    | inr undefined ↦
        inr (none, rw undefined refl, λ (days_pos, equity_pos, _). absurd (ground arith))
    | inl positive ↦ elim (Option-cases (growth_per_year N S config equity days)) [
      | inl large ↦ inl (rw (positive, large) refl, (ground arith, ground arith, large))
      | inr (growth, found) ↦ inr (
        some (sub growth (lit 1 0)),
        rw (positive, found) refl,
        λ (_, _, large). absurd (ground arith),
      )
    ]
  ]

  module _ (laws : IsOrdered N) (bars : List (Kline N)) (funding : List (FundingRate N))
      (intents : List (ℤ × EntryIntent N)) where
    is_funded :
        lt (nought N) config.starting_equity ≡ true → eq config.starting_equity (nought N) ≡ false
    is_funded h = ground (
      arith,
      laws.eq-le config.starting_equity (nought N),
      laws.le-eq-not-lt config.starting_equity (nought N),
    )

    -- Over two bars or more and from a positive equity, `run` lays out trades, simulations of
    -- the intents that do not overlap, which occupy fewer bars than there are. It returns a result
    -- with these trades, whose equity curve begins with the starting equity and has one more point
    -- for each bar; or it raises an OverflowError, exactly where the time and the final equity
    -- are positive and the power that annualizes the return overflows. Nothing else is raised.
    pub run-Laid :
        2 ≤ length bars
        → lt (nought N) config.starting_equity ≡ true
        → (trades : List (BacktestTrade N)) × (occupied : ℕ) × Laid N config funding bars
            (sorted_intents N intents)
            1
            trades
            occupied
          × (occupied < length bars)
          × (((r : BacktestResult N) × (run N S config bars intents funding ≡ ok r)
                × Reports bars trades r
                × (¬ Overflows
                    (compound_all N config.starting_equity trades)
                    (elapsed_days N S bars)))
              ⊎ ((run N S config bars intents funding ≡ err overflow)
                  × Overflows
                      (compound_all N config.starting_equity trades)
                      (elapsed_days N S bars)))
    unfolding run result report mark_to_market_curve
    run-Laid bars_two positive =
        let funded : eq config.starting_equity (nought N) ≡ false = is_funded positive in
        let (book, ran, laid) = run_from-Laid N config funding bars (sorted_intents N intents) 1 in
        let lt_two : ltb (length bars) 2 ≡ false = ground arith in
        let in_bars =
          Laid-le N config funding bars (sorted_intents N intents) 1 book.trades book.occupied_bars
            (omega arith) laid in
        let equity = compound_all N config.starting_equity book.trades in
        (
          book.trades,
          book.occupied_bars,
          laid,
          omega (arith, in_bars),
          elim (annualized_of-cases equity (elapsed_days N S bars)) [
            | inl (raised, large) ↦ inr (rw (lt_two, ran, ◌>>=◌, funded, raised) refl, large)
            | inr (a, found, in_range) ↦ inl (
              report N S config book.trades bars book.occupied_bars a,
              rw (lt_two, ran, ◌>>=◌, funded, found) refl,
              (
                refl,
                (
                  curve_from N config.starting_equity bars book.trades,
                  refl,
                  length-curve_from N bars config.starting_equity book.trades,
                ),
              ),
              in_range,
            )
          ],
        )
