-- ===== src/Strategies/MicroRules/Samples.antt =====
-- Candles, settings and points in scaled integers on which both rules find a candidate, after
-- tests/test_crypto_micro_rules.py.
use protocol_monitor.Common.{ℕ, suc, ◌+◌, ◌*◌, String, true, none, some, List, [], ◌∷◌, ◌++◌, map}
use protocol_monitor.Common.Int.{ℤ, pos, neg_ℤ, ◌-ℤ◌}
use protocol_monitor.Numbers.Fixed.{fixed}
use protocol_monitor.Market.Kline.{Kline, DateTime, minutes}
use protocol_monitor.Market.Samples.{price}
use protocol_monitor.Strategies.MicroRules.{
  Library, OpenInterestPoint, FundingPoint, CryptoMicroRuleConfig,
}
use protocol_monitor.Strategies.MicroRules.Cm2
use protocol_monitor.Strategies.MicroRules.Cm3

abbrev pub hundredths : ℕ → ℤ
hundredths n = pos (n * 100)

-- The logarithm is its tangent at 1, which is monotone and zero at 1.
abbrev pub library : Library fixed
library = record {
  log = λ x. x -ℤ price 1;
  is_finite = λ x. true;
  inf = price 1_000_000;
  format_8g = λ x. "";
  isoformat = λ t. "";
}

-- A candle: its interval in minutes and by name, its number from `start`, its prices in hundredths
-- and the volume that takers bought out of 100.
abbrev pub bar : ℕ → String → DateTime → ℕ → (open_price high low close taker_buy : ℕ) → Kline fixed
bar width interval start index open_price high low close taker_buy = record {
  exchange = "BINANCE";
  symbol = "ETHUSDT";
  interval = interval;
  open_time = start + minutes (width * index);
  close_time = start + minutes (width * suc index);
  open_price = hundredths open_price;
  high = hundredths high;
  low = hundredths low;
  close = hundredths close;
  volume = price 100;
  quote_volume = none;
  is_closed = true;
  taker_buy_volume = some (price taker_buy);
}

abbrev pub start : DateTime
start = minutes 10_000

abbrev pub ends_down : ℕ → String → List (Kline fixed)
ends_down width interval =
    let b = λ (i : ℕ) (h l c : ℕ). bar width interval 0 i c h l c 50 in
    b 0 1_000 800 900
    ∷ b 1 1_100 900 1_000
    ∷ b 2 1_400 1_000 1_300
    ∷ b 3 1_200 900 1_000
    ∷ b 4 1_100 800 900
    ∷ b 5 1_500 1_100 1_450
    ∷ b 6 1_300 900 1_000
    ∷ b 7 1_200 700 700
    ∷ []

abbrev pub profile : List (Kline fixed)
profile =
    map (λ (i : ℕ). bar 15 "15m" 0 i 1_000 1_100 900 1_000 50)
      (0 ∷ 1 ∷ 2 ∷ 3 ∷ 4 ∷ 5 ∷ 6 ∷ 7 ∷ 8 ∷ 9 ∷ [])

abbrev pub funding : List (FundingPoint fixed)
funding = record { observed_at = 0; available_at = 0; rate = pos 1 } ∷ []

abbrev pub config : CryptoMicroRuleConfig fixed
config = record {
  atr_period = 5;
  structure_lookback = 120;
  pivot_left = 2;
  pivot_right = 2;
  flow_lookback = 3;
  profile_lookback_15m = 10;
  profile_min_bars = 10;
  profile_bins = 12;
  setup_search_bars = 5;
  retest_tolerance_atr = pos 1_500;
  equal_low_tolerance_atr = pos 1_200;
  minimum_sweep_atr = pos 200;
  reclaim_buffer_atr = pos 200;
  minimum_lower_wick_ratio = pos 3_000;
  stop_buffer_atr = pos 1_000;
  oi_lookback = 8;
  oi_min_history = 3;
  oi_washout_z = neg_ℤ (price 2);
  lower_quantile = pos 4_000;
  upper_quantile = pos 6_000;
  crowded_funding_rate = pos 5;
  minimum_rr = pos 15_000;
  max_hold_bars = 576;
  risk_fraction = pos 25;
  enable_cvd_gate = true;
  enable_oi_gate = true;
  enable_funding_gate = true;
}

abbrev pub falling : List (Kline fixed)
falling =
    let b = bar 5 "5m" start in
    b 0 1_000 1_100 900 1_000 50
    ∷ b 1 1_000 1_100 800 900 50
    ∷ b 2 900 1_000 500 700 50
    ∷ b 3 700 1_000 700 900 50
    ∷ b 4 900 1_400 800 1_300 50
    ∷ b 5 1_300 1_300 1_000 1_100 50
    ∷ b 6 1_100 1_200 900 1_000 50
    ∷ b 7 1_000 1_600 950 1_500 50
    ∷ b 8 1_500 1_500 1_000 1_300 50
    ∷ b 9 1_300 1_300 800 1_000 50
    ∷ b 10 1_000 1_400 900 1_300 50
    ∷ b 11 1_300 1_350 1_000 1_200 50
    ∷ b 12 1_200 1_250 700 750 20
    ∷ []

abbrev pub short_inputs : Cm2.Inputs fixed
short_inputs = record {
  as_of = start + minutes 65;
  eth_5m = falling;
  eth_15m = profile;
  eth_4h = ends_down 240 "4h";
  btc_5m = ends_down 5 "5m";
  funding = funding;
}

abbrev pub swept : List (Kline fixed)
swept =
    let b = bar 5 "5m" start in
    b 0 1_000 1_100 1_000 1_000 50
    ∷ b 1 1_000 1_200 900 1_100 50
    ∷ b 2 1_100 1_500 1_000 1_400 50
    ∷ b 3 1_400 1_400 1_100 1_200 50
    ∷ b 4 1_200 1_300 800 1_000 50
    ∷ b 5 1_000 1_200 1_000 1_100 50
    ∷ b 6 1_100 1_250 1_100 1_200 30
    ∷ b 7 1_200 1_220 950 1_000 30
    ∷ b 8 1_000 1_200 805 1_050 30
    ∷ b 9 1_050 1_100 1_000 1_050 30
    ∷ b 10 1_050 1_150 1_050 1_100 30
    ∷ b 11 950 1_000 700 950 70
    ∷ []

abbrev pub point : ℕ → ℕ → OpenInterestPoint fixed
point contracts i = record {
  observed_at = start + minutes (5 * i);
  available_at = start + minutes (5 * i);
  contracts = price contracts;
}

-- The open interest at the bars' closes: it falls at the last one.
abbrev pub points : List (OpenInterestPoint fixed)
points = map (point 100) (1 ∷ 2 ∷ 3 ∷ 4 ∷ 5 ∷ 6 ∷ 7 ∷ 8 ∷ 9 ∷ 10 ∷ 11 ∷ []) ++ (point 90 12 ∷ [])

abbrev pub long_inputs : Cm3.Inputs fixed
long_inputs = record {
  as_of = start + minutes 60;
  eth_5m = swept;
  btc_5m = ends_down 5 "5m";
  open_interest = points;
  funding = funding;
}
