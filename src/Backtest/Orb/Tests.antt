-- ===== src/Backtest/Orb/Tests.antt =====
-- The retest and its replay on an opening range, a break and a retest, in scaled integers.
use protocol_monitor.Common.{
  ℕ, ◌+◌, ◌*◌, ◌/◌, ◌%◌, ◌<◌, ◌≡◌, refl, true, false, none, some, List, [], ◌∷◌, ◌++◌, All,
  get_elem?, take, take_last,
}
use protocol_monitor.Common.Int.{ℤ, pos, quot, ◌*ℤ◌, ◌+ℤ◌, ◌-ℤ◌, neg_ℤ}
use protocol_monitor.Numbers.Fixed.{fixed, fixed-IsOrdered, fixed-IsRounded}
use protocol_monitor.Market.Kline.{Kline, minutes}
use protocol_monitor.Market.Samples.{price}
use protocol_monitor.Backtest.Engine.{EntryIntent, long}
use protocol_monitor.Strategies.OrbRetest.{
  OrbRetestConfig, Row, Clock, Base, OrbSignal, triggered, vwap, watch_from, break_of,
  confirmation_rvol_of, signal_on,
}
use protocol_monitor.Strategies.OrbRetest.Broken.{IsBroken}
use protocol_monitor.Strategies.OrbRetest.Trigger.{IsTrigger, watch_from-IsTrigger}
use protocol_monitor.Backtest.Orb.{build_orb_intents}
use protocol_monitor.Backtest.Orb.Replay.{IsWithin, build_orb_intents-append}

-- New York's clock as that of the instants.
abbrev clock : Clock
clock = record { day = λ t. t / minutes 1_440; minute = λ t. t / minutes 1 % 1_440 }

-- The first number stands for the mean.
abbrev mean : List ℤ → ℤ
mean [] = pos 0
mean (x ∷ xs) = x

abbrev config : OrbRetestConfig fixed
config = record {
  opening_range_minutes = 30;
  entry_cutoff = 720;
  minimum_premarket_rvol = pos 15_000;
  minimum_confirmation_rvol = pos 12_000;
  minimum_absolute_gap_pct = pos 10_000;
  require_premarket_rvol = false;
  retest_buffer_fraction = pos 10;
  reward_r = price 2;
}

-- A quarter of an hour from 9:30 on: its number, high, low, close and volume.
abbrev row : ℕ → ℕ → ℕ → ℕ → ℕ → Row fixed
row i high low close volume = record {
  time = minutes (570 + 15 * i);
  open_price = price close;
  high = price high;
  low = price low;
  close = price close;
  volume = some (price volume);
}

abbrev rows : List (Row fixed)
rows = row 0 100 95 98 10 ∷ row 1 100 96 99 10 ∷ row 2 105 99 104 10 ∷ row 3 106 100 105 30 ∷ []

abbrev base : Base fixed
base = record {
  filters = record { gap = true; premarket_rvol = true; liquid_premarket = true };
  gap_pct = none;
  premarket_rvol = none;
  opening_high = price 100;
  opening_low = price 95;
}

abbrev a_signal : OrbSignal fixed
a_signal = record {
  direction = long;
  signal_time = minutes 615;
  entry_reference = price 105;
  stop = pos 999_000;
  target = pos 1_152_000;
  reward_r = price 2;
  confirmation_rvol = price 3;
}

watch_run :
    watch_from fixed clock mean config rows none base
      (row 0 100 95 98 10 ∷ row 1 100 96 99 10 ∷ [])
      none
      2
      (row 2 105 99 104 10 ∷ row 3 106 100 105 30 ∷ [])
    ≡ triggered a_signal
unfolding watch_from vwap break_of confirmation_rvol_of signal_on take_last quot ◌*ℤ◌ ◌+ℤ◌ ◌-ℤ◌
    neg_ℤ
watch_run = refl

watch_from-IsTrigger_example :
    (i : ℕ) × (c : Row fixed) × (get_elem? (row 2 105 99 104 10 ∷ row 3 106 100 105 30 ∷ []) i
      ≡ some c)
    × (clock.minute c.time < 720)
    × IsBroken fixed clock mean config rows none base
        (row 0 100 95 98 10 ∷ row 1 100 96 99 10 ∷ [])
        none
        2
        (row 2 105 99 104 10 ∷ row 3 106 100 105 30 ∷ [])
        i
        long
    × IsTrigger fixed fixed-IsOrdered fixed-IsRounded clock mean config refl rows none base c
        (vwap fixed
          ((row 0 100 95 98 10 ∷ row 1 100 96 99 10 ∷ [])
            ++ take i (row 2 105 99 104 10 ∷ row 3 106 100 105 30 ∷ []))
          c)
        a_signal
watch_from-IsTrigger_example =
    watch_from-IsTrigger fixed fixed-IsOrdered fixed-IsRounded clock mean config refl rows none base
      (row 0 100 95 98 10 ∷ row 1 100 96 99 10 ∷ []) none 2
      (row 2 105 99 104 10 ∷ row 3 106 100 105 30 ∷ []) a_signal watch_run

-- A bar at a minute of the day: its open, high, low, close and volume.
abbrev quarter : ℕ → ℕ → ℕ → ℕ → ℕ → ℕ → Kline fixed
quarter minute o h l c volume = record {
  exchange = "NYSE";
  symbol = "SPY";
  interval = "15m";
  open_time = minutes minute;
  close_time = minutes (minute + 15);
  open_price = price o;
  high = price h;
  low = price l;
  close = price c;
  volume = price volume;
  quote_volume = none;
  is_closed = true;
  taker_buy_volume = none;
}

abbrev bars : List (Kline fixed)
bars =
    quarter 540 98 99 97 98 10
    ∷ quarter 570 98 100 95 98 10
    ∷ quarter 585 98 100 96 99 10
    ∷ quarter 600 99 105 99 104 10
    ∷ quarter 615 104 106 100 105 30
    ∷ []

abbrev later : List (Kline fixed)
later = quarter 630 105 107 104 106 10 ∷ []

build_orb_intents-append_example :
    All
      (IsWithin fixed clock mean config (λ d. some (price 95)) (λ d. none) (pos 25) 0 5)
      (build_orb_intents fixed clock mean config (λ d. some (price 95)) (λ d. none) (pos 25) bars)
    × ((rest : List (ℕ × EntryIntent fixed)) × (build_orb_intents fixed clock mean config
            (λ d. some (price 95))
            (λ d. none)
            (pos 25)
            (bars ++ later)
          ≡ build_orb_intents fixed clock mean config
              (λ d. some (price 95))
              (λ d. none)
              (pos 25)
              bars
            ++ rest)
        × All
            (IsWithin fixed clock mean config (λ d. some (price 95)) (λ d. none) (pos 25) 5 6)
            rest)
build_orb_intents-append_example =
    build_orb_intents-append fixed clock mean config (λ d. some (price 95)) (λ d. none) (pos 25)
      bars later
