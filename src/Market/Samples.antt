-- ===== src/Market/Samples.antt =====
-- Candles and rows in scaled integers, for the tests of the other modules.
use protocol_monitor.Common.{ℕ, ◌+◌, ◌*◌, true, false, none, some, List, [], ◌∷◌}
use protocol_monitor.Common.Int.{ℤ, pos}
use protocol_monitor.Numbers.Fixed.{fixed, scale}
use protocol_monitor.Signals.Models.{Signal, l3}
use protocol_monitor.Market.Kline.{Kline, minutes}

abbrev pub price : ℕ → ℤ
price n = pos (n * scale)

-- A closed five-minute candle: its number, open, high, low and close.
abbrev pub candle : ℕ → ℕ → ℕ → ℕ → ℕ → Kline fixed
candle i o h l c = record {
  exchange = "BINANCE";
  symbol = "ETHUSDT";
  interval = "5m";
  open_time = minutes (5 * i);
  close_time = minutes (5 * i + 5);
  open_price = price o;
  high = price h;
  low = price l;
  close = price c;
  volume = price 10;
  quote_volume = none;
  is_closed = true;
  taker_buy_volume = some (price 7);
}

abbrev pub candles : List (Kline fixed)
candles = candle 0 100 110 90 105 ∷ candle 1 105 120 100 115 ∷ candle 2 115 118 95 98 ∷ []

-- A triggered long at 100, with its stop at 90.
abbrev pub signal : Signal fixed
signal = record {
  signal_id = "s1";
  exchange = "BINANCE";
  symbol = "ETHUSDT";
  book = "Micro";
  strategy_name = "cm2";
  level = l3;
  direction = "LONG";
  status = "TRIGGERED";
  trigger_price = price 100;
  entry = some (price 100);
  sl = some (price 90);
  tp1 = some (price 110);
  tp2 = some (price 120);
  tp3 = none;
  rr_to_tp1 = none;
  position_r = pos 5_000;
  trigger_reason = "breakout";
  invalid_condition = "";
  risk_flags = [];
  btc_filter = [];
  flow_state = [];
  raw_snapshot = [];
  created_at = minutes 0;
  tp1_reached = false;
}
