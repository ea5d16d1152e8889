-- ===== src/Backtest/Engine/Fills.antt =====
-- At which prices a bar closes a trade, against the order of its prices.
use protocol_monitor.Common.{◌≡◌, ◌↔◌, Bool, true, none, some, arith, ◌&&◌}
use protocol_monitor.Numbers.{Numbers}
use protocol_monitor.Numbers.Laws.{IsOrdered, le_refl}
use protocol_monitor.Market.Kline.{Kline}
use protocol_monitor.Backtest.Engine.{
  Direction, long, short, EntryIntent, BacktestConfig, bar_exit, bar_hits, ExitReason,
}

module _ (N : Numbers) (laws : IsOrdered N) where
  open N use {Float, float, lt, le}
  open laws use {le-eq-not-lt, le_trans}

  -- The whole range from `low` to `high` lies strictly between the stop and the target.
  abbrev pub untouched : Direction → (low high stop target : Float) → Bool
  untouched long low high stop target = lt stop low && lt high target
  untouched short low high stop target = lt high stop && lt target low

  -- A price that is no better than the target.
  abbrev pub no_better : Direction → Float → Float → Bool
  no_better long price target = le price target
  no_better short price target = le target price

  module _ (config : BacktestConfig N) (intent : EntryIntent N) (bar : Kline N) where
    abbrev low : Float
    low = float bar.low

    abbrev high : Float
    high = float bar.high

    abbrev open_price : Float
    open_price = float bar.open_price

    -- If the open of a bar lies between its low and its high, the bar leaves a trade open exactly
    -- when its whole range lies strictly between the stop and the target.
    pub bar_exit-none_iff :
        le low open_price ≡ true
        → le open_price high ≡ true
        → (bar_exit N config intent bar ≡ none)
          ↔ (untouched intent.direction low high intent.stop intent.target ≡ true)
    unfolding bar_exit bar_hits
    bar_exit-none_iff above below = ground (
      arith,
      le-eq-not-lt low intent.stop,
      le-eq-not-lt intent.target high,
      le-eq-not-lt intent.stop high,
      le-eq-not-lt low intent.target,
      le_trans low open_price intent.stop,
      le_trans intent.target open_price high,
      le_trans intent.stop open_price high,
      le_trans low open_price intent.target,
    )

    -- If the stop is on the losing side of the target, no bar fills an exit at a price better than
    -- the target.
    pub bar_exit-no_better :
        {raw : Float} {why : ExitReason}
        → no_better intent.direction intent.stop intent.target ≡ true
        → bar_exit N config intent bar ≡ some (raw, why)
        → no_better intent.direction raw intent.target ≡ true
    unfolding bar_exit bar_hits
    bar_exit-no_better sides e = ground (
      arith,
      le_refl N laws intent.target,
      le_trans open_price intent.stop intent.target,
      le_trans intent.target intent.stop open_price,
    )
