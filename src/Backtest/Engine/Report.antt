-- ===== src/Backtest/Engine/Report.antt =====
-- The statistics of `BacktestEngine._result`, the marked equity curve, and `run`.
pub mod Curve
use protocol_monitor.Common.{
  ℕ, suc, ◌+◌, ◌-◌, ◌*◌, ◌≡◌, Bool, true, false, not, ◌&&◌, Option, none, some, List, [], ◌∷◌, map,
  ltb, leb, if◌then◌else◌, length, get_last?, keep, Result, ok, err, ◌>>=◌,
}
use protocol_monitor.Common.Int.{ℤ}
use protocol_monitor.Numbers.{Numbers, nought, fmax, fabs, fsum}
use protocol_monitor.Market.Kline.{Kline, DateTime}
use protocol_monitor.Backtest.Engine.{
  Direction, is_long, Fault, zero_division, overflow, EntryIntent, FundingRate, BacktestConfig,
  BacktestTrade, Book, run_from, sorted_intents, utc_timestamp,
}

-- What the code calls of `statistics`, `math` and the division of ints.
pub record Statistics (N : Numbers) : Type 0 where
  pub mean : List N.Float → N.Float
  pub pstdev : List N.Float → N.Float
  pub sqrt : N.Float → N.Float
  -- `x ** y` for a positive `x`; `none` is an OverflowError.
  pub power : N.Float → N.Float → Option N.Float
  pub inf : N.Float
  -- `float(n)`, and `m / n` of two ints.
  pub of_int : ℕ → N.Float
  pub ratio : ℕ → ℕ → N.Float

pub record BacktestResult (N : Numbers) : Type 0 where
  pub trades : List (BacktestTrade N)
  pub equity_curve : List N.Float
  pub net_return_pct : N.Float
  pub annualized_return_pct : Option N.Float
  pub max_drawdown_pct : N.Float
  pub calmar_ratio : Option N.Float
  pub sharpe_per_trade : Option N.Float
  pub win_rate_pct : N.Float
  pub profit_factor : Option N.Float
  pub average_win_r : Option N.Float
  pub average_loss_r : Option N.Float
  pub exposure_pct : N.Float

module _ (N : Numbers) where
  open N use {Float, float, lit, add, sub, mul, div, lt, le, eq}

  -- `_max_drawdown`, its loop from the peak and the maximum so far.
  pub drawdown_from : Float → Float → List Float → Float
  drawdown_from peak maximum [] = maximum
  drawdown_from peak maximum (equity ∷ rest) =
      let top = fmax N peak equity in
      drawdown_from top
        (if lt (nought N) top then fmax N maximum (div (sub top equity) top) else maximum) rest

  pub max_drawdown : List Float → Float
  max_drawdown = drawdown_from (nought N) (nought N)

  -- `equity *= 1 + trade.pnl_fraction`
  abbrev pub compound : Float → BacktestTrade N → Float
  compound equity trade = mul equity (add (lit 1 0) trade.pnl_fraction)

  -- The `while` of `_mark_to_market_curve`: trades that ended by the open of the bar are booked.
  pub settle : DateTime → Float → List (BacktestTrade N) → Float × List (BacktestTrade N)
  settle bar_open equity [] = (equity, [])
  settle bar_open equity (t ∷ ts) =
      if leb (utc_timestamp t.exit_time) bar_open
      then settle bar_open (compound equity t) ts
      else (equity, t ∷ ts)

  -- The equity with the open trade marked at the close of the bar.
  pub marked : Kline N → Float → BacktestTrade N → Float
  marked bar equity trade =
      let mark = float bar.close in
      let risk =
        if is_long trade.direction
        then sub trade.entry trade.stop
        else sub trade.stop trade.entry in
      let move = if is_long trade.direction then sub mark trade.entry else sub trade.entry mark in
      let mark_r = if lt (nought N) risk then div move risk else nought N in
      mul equity (add (lit 1 0) (mul trade.risk_fraction mark_r))

  -- Lines 300 to 314: the marked equity, then the booked equity and the trades left.
  pub mark_bar : Kline N → Float → List (BacktestTrade N) → Float × Float × List (BacktestTrade N)
  mark_bar bar equity [] = (equity, equity, [])
  mark_bar bar equity (t ∷ ts) =
      let bar_open = utc_timestamp bar.open_time in
      let bar_close = utc_timestamp bar.close_time in
      let entry_time = utc_timestamp t.entry_time in
      let exit_time = utc_timestamp t.exit_time in
      if leb entry_time bar_open && leb exit_time bar_close
      then (compound equity t, compound equity t, ts)
      else if leb entry_time bar_open && ltb bar_open exit_time
      then (marked bar equity t, equity, t ∷ ts)
      else (equity, equity, t ∷ ts)

  pub curve_from : Float → List (Kline N) → List (BacktestTrade N) → List Float
  curve_from equity [] trades = []
  curve_from equity (bar ∷ bars) trades =
      let (settled, waiting) = settle (utc_timestamp bar.open_time) equity trades in
      let (mark, booked, left) = mark_bar bar settled waiting in
      fmax N mark (nought N) ∷ curve_from booked bars left

  -- `_mark_to_market_curve`
  pub mark_to_market_curve : BacktestConfig N → List (Kline N) → List (BacktestTrade N) → List Float
  mark_to_market_curve config bars trades =
      config.starting_equity ∷ curve_from config.starting_equity bars trades

  unfoldable pub compound_all : Float → List (BacktestTrade N) → Float
  compound_all equity [] = equity
  compound_all equity (t ∷ ts) = compound_all (compound equity t) ts

  module _ (S : Statistics N) where
    open S use {mean, pstdev, sqrt, power, inf, of_int, ratio}

    -- `xs and mean(xs)`
    abbrev pub mean_of : List Float → Option Float
    mean_of [] = none
    mean_of (x ∷ xs) = some (mean (x ∷ xs))

    abbrev pub profit_factor_of : List Float → List Float → Option Float
    profit_factor_of [] [] = none
    profit_factor_of (w ∷ wins) [] = some inf
    profit_factor_of wins (l ∷ losses) = some (div (fsum N wins) (fabs N (fsum N (l ∷ losses))))

    abbrev pub sharpe_of : List Float → Option Float
    sharpe_of returns =
        if leb 2 (length returns) && lt (nought N) (pstdev returns)
        then some (mul (div (mean returns) (pstdev returns)) (sqrt (of_int (length returns))))
        else none

    -- Days from the open of the first bar to the close of the last; 0 if that is earlier.
    unfoldable pub elapsed_days : List (Kline N) → Float
    elapsed_days [] = nought N
    elapsed_days (first ∷ rest) = elim (get_last? (first ∷ rest)) [
      | none ↦ nought N
      | some last ↦
          if leb 2 (length (first ∷ rest))
          then ratio (last.close_time - first.open_time) 86_400_000_000
          else nought N
    ]

    -- `(equity / self.config.starting_equity) ** (365.25 / elapsed_days)`
    abbrev pub growth_per_year : BacktestConfig N → Float → Float → Option Float
    growth_per_year config equity days =
        power (div equity config.starting_equity) (div (lit 36_525 2) days)

    -- `annualized_return`; the power can overflow.
    abbrev pub annualized_of : BacktestConfig N → Float → Float → Result Fault (Option Float)
    annualized_of config equity days =
        if lt (nought N) days && lt (nought N) equity
        then elim (growth_per_year config equity days) [
          | none ↦ err overflow
          | some growth ↦ ok (some (sub growth (lit 1 0)))
        ]
        else ok none

    abbrev pub calmar_of : Option Float → Float → Float → Option Float
    calmar_of annualized net drawdown =
        let base : Float = elim annualized [ none ↦ net | some a ↦ a ] in
        if lt (nought N) drawdown
        then some (div base drawdown)
        else if lt (nought N) base
        then some inf
        else none

    abbrev pub percent : Float → Float
    percent x = mul x (lit 100 0)

    abbrev pub percent_of : Option Float → Option Float
    percent_of none = none
    percent_of (some x) = some (percent x)

    -- The values of `_result`, with the annualized return.
    pub report :
        BacktestConfig N
        → List (BacktestTrade N)
        → List (Kline N)
        → ℕ
        → Option Float
        → BacktestResult N
    report config trades bars occupied_bars annualized =
        let equity = compound_all config.starting_equity trades in
        let returns = map (λ (t : BacktestTrade N). t.net_r) trades in
        let wins = keep (λ (r : Float). lt (nought N) r) returns in
        let losses = keep (λ (r : Float). lt r (nought N)) returns in
        let curve = mark_to_market_curve config bars trades in
        let drawdown = max_drawdown curve in
        let net = sub (div equity config.starting_equity) (lit 1 0) in
        record {
          trades = trades;
          equity_curve = curve;
          net_return_pct = percent net;
          annualized_return_pct = percent_of annualized;
          max_drawdown_pct = percent drawdown;
          calmar_ratio = calmar_of annualized net drawdown;
          sharpe_per_trade = sharpe_of returns;
          win_rate_pct =
              if ltb 0 (length returns)
              then percent (ratio (length wins) (length returns))
              else nought N;
          profit_factor = profit_factor_of wins losses;
          average_win_r = mean_of wins;
          average_loss_r = mean_of losses;
          exposure_pct =
              if ltb 0 (length bars) then percent (ratio occupied_bars (length bars)) else nought N;
        }

    -- `_result`; the division by the starting equity can fail, and then the annualization.
    unfoldable pub result :
        BacktestConfig N
        → List (BacktestTrade N)
        → List (Kline N)
        → ℕ
        → Result Fault (BacktestResult N)
    result config trades bars occupied_bars =
        if eq config.starting_equity (nought N) then err zero_division else do
          annualized ←
              annualized_of config (compound_all config.starting_equity trades) (elapsed_days bars)
          ok (report config trades bars occupied_bars annualized)

    abbrev pub no_result : BacktestConfig N → BacktestResult N
    no_result config = record {
      trades = [];
      equity_curve = config.starting_equity ∷ [];
      net_return_pct = nought N;
      annualized_return_pct = none;
      max_drawdown_pct = nought N;
      calmar_ratio = none;
      sharpe_per_trade = none;
      win_rate_pct = nought N;
      profit_factor = none;
      average_win_r = none;
      average_loss_r = none;
      exposure_pct = nought N;
    }

    -- `BacktestEngine.run`
    unfoldable pub run :
        BacktestConfig N
        → List (Kline N)
        → List (ℤ × EntryIntent N)
        → List (FundingRate N)
        → Result Fault (BacktestResult N)
    run config bars intents points = if ltb (length bars) 2 then ok (no_result config) else do
      book ← run_from N config points bars 1 (sorted_intents N intents)
      result config book.trades bars book.occupied_bars
