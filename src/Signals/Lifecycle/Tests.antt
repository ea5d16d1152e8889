-- ===== src/Signals/Lifecycle/Tests.antt =====
-- The theorems on the lifecycle, the tables and the store at concrete rows and candles.
use protocol_monitor.Common.{◌≡◌, ◌⊎◌, refl, true, false, not, none, some, [], ◌∷◌, map}
use protocol_monitor.Numbers.Fixed.{fixed}
use protocol_monitor.Market.Kline.{DateTime, minutes, hours}
use protocol_monitor.Market.Samples.{price, candle, signal}
use protocol_monitor.Signals.Models.{SignalRow}
use protocol_monitor.Storage.Signals.{new_row, is_manageable}
use protocol_monitor.Signals.Lifecycle.{
  Levels, is_managing, stop_hit, target_hit, is_overdue, on_closed_kline,
}
use protocol_monitor.Signals.Lifecycle.Transitions.{
  next, reported, Persists, IsHonest, decide-is_manageable, decide-overdue, decide-IsHonest,
}
use protocol_monitor.Signals.Lifecycle.Batch.{resolved_ids, transition, on_closed_kline-transition}

abbrev row : SignalRow fixed
row = new_row fixed signal

abbrev levels_of_row : Levels fixed
levels_of_row = record {
  entry = price 100;
  stop = price 90;
  tp1 = some (price 110);
  tp2 = some (price 120);
}

abbrev late : DateTime
late = hours 48

row-is_manageable : is_manageable fixed row ≡ true
unfolding is_manageable
row-is_manageable = refl

row-is_overdue : is_overdue fixed 48 row late ≡ true
unfolding is_overdue is_managing
row-is_overdue = refl

decide-is_manageable_example :
    (is_manageable fixed (next fixed 48 row levels_of_row (candle 1 105 120 100 115) late)
      ≡ not (reported fixed 48 row levels_of_row (candle 1 105 120 100 115) late))
    × (reported fixed 48 row levels_of_row (candle 1 105 120 100 115) late ≡ false
        → Persists fixed row (next fixed 48 row levels_of_row (candle 1 105 120 100 115) late))
decide-is_manageable_example =
    decide-is_manageable fixed 48 row levels_of_row (candle 1 105 120 100 115) late
      row-is_manageable

decide-overdue_example :
    (reported fixed 48 row levels_of_row (candle 1 105 108 100 102) late ≡ true)
    ⊎ (((next fixed 48 row levels_of_row (candle 1 105 108 100 102) late).tp1_reached ≡ true)
        × (target_hit fixed row levels_of_row (candle 1 105 108 100 102) ≡ true))
decide-overdue_example =
    decide-overdue fixed 48 row levels_of_row (candle 1 105 108 100 102) late row-is_overdue

decide-IsHonest_example :
    IsHonest fixed row
      (is_managing fixed row)
      (stop_hit fixed row levels_of_row (candle 1 105 120 100 115))
      (target_hit fixed row levels_of_row (candle 1 105 120 100 115))
      (next fixed 48 row levels_of_row (candle 1 105 120 100 115) late)
decide-IsHonest_example = decide-IsHonest fixed 48 row levels_of_row (candle 1 105 120 100 115) late

on_closed_kline-transition_example :
    on_closed_kline fixed 48 (candle 1 105 120 100 115) none (row ∷ [])
    ≡ some (
      resolved_ids fixed 48 (candle 1 105 120 100 115) (minutes 10) (row ∷ []),
      map (transition fixed 48 (candle 1 105 120 100 115) (minutes 10)) (row ∷ []),
    )
on_closed_kline-transition_example =
    on_closed_kline-transition fixed 48 (candle 1 105 120 100 115) none (row ∷ []) (refl, tt)
