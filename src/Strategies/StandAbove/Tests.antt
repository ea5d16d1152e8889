-- ===== src/Strategies/StandAbove/Tests.antt =====
-- An update of the strategy above a level.
use protocol_monitor.Common.{[], ◌∷◌}
use protocol_monitor.Numbers.Fixed.{fixed, fixed-IsOrdered}
use protocol_monitor.Market.Kline.{Kline, minutes}
use protocol_monitor.Market.Samples.{price, candle, candles}
use protocol_monitor.Strategies.Base.{Outside, Strategy, idle}
use protocol_monitor.Strategies.StandAbove.{StandLevels, StrategyContext, on_market_update}
use protocol_monitor.Strategies.StandAbove.Entries.{Gives, on_market_update-Gives}

abbrev outside : Outside
outside = record { utcnow = minutes 15; hex = λ n. "0123456789" }

abbrev free : Strategy fixed
free = record {
  id = "stand";
  exchange = "BINANCE";
  symbol = "ETHUSDT";
  book = "Micro";
  strategy_name = "stand";
  direction = "LONG";
  max_hold_hours = 48;
  state = record { state = idle; context = []; entered_state_at = minutes 0 };
}

abbrev levels : StandLevels fixed
levels = record { stand_above = price 105; support_low = price 90; fail_back = price 80 }

abbrev in_quarter : Kline fixed → Kline fixed
in_quarter k = record k { interval = "15m" }

abbrev context : StrategyContext fixed
context = record {
  event = in_quarter (candle 2 105 120 100 115);
  store = record {
    cache_limit = 100;
    cache =
        (record { exchange = "BINANCE"; symbol = "ETHUSDT"; interval = "5m" }, candles)
        ∷ (
          record { exchange = "BINANCE"; symbol = "ETHUSDT"; interval = "15m" },
          in_quarter (candle 2 105 120 100 115) ∷ [],
        )
        ∷ [];
    table = [];
  };
  now = minutes 15;
}

on_market_update-Gives_example :
    Gives fixed outside levels context free (on_market_update fixed outside levels context free)
on_market_update-Gives_example =
    on_market_update-Gives fixed outside levels context fixed-IsOrdered free
