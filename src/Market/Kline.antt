-- ===== src/Market/Kline.antt =====
-- `Kline` of app/market/models.py. A `datetime` is the number of microseconds since the first
-- day of year 1, which is what naive datetimes are compared and subtracted by.
use protocol_monitor.Common.{ℕ, ◌*◌, String, Bool, Option}
use protocol_monitor.Numbers.{Numbers}

abbrev pub DateTime : Type 0
DateTime = ℕ

-- `timedelta(minutes=n)` and `timedelta(hours=n)`.
abbrev pub minutes : ℕ → ℕ
minutes n = n * 60_000_000

abbrev pub hours : ℕ → ℕ
hours n = n * 3_600_000_000

pub record Kline (N : Numbers) : Type 0 where
  pub exchange : String
  pub symbol : String
  pub interval : String
  pub open_time : DateTime
  pub close_time : DateTime
  pub open_price : N.Decimal
  pub high : N.Decimal
  pub low : N.Decimal
  pub close : N.Decimal
  pub volume : N.Decimal
  pub quote_volume : Option N.Decimal
  pub is_closed : Bool
  pub taker_buy_volume : Option N.Decimal
