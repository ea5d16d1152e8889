-- ===== src/Indicators/Cvd.antt =====
-- app/indicators/cvd.py: the cumulative volume delta, from taker volumes or from the candles' colour.
pub mod Meaning
use protocol_monitor.Common.{
  ℕ, zero, suc, ◌+◌, ◌-◌, ◌≤◌, ◌≡◌, refl, Bool, true, false, not, ◌&&◌, Option, none, some, List,
  [], ◌∷◌, ◌++◌, map, ltb, leb, ◌==◌, if◌then◌else◌, length, get_last?, drop_last, take_last,
  any_of, All, arith,
}
use protocol_monitor.Numbers.{Numbers, nought, fmax, fmin, fmax_from, fmin_from}
use protocol_monitor.Market.Kline.{Kline}

pub data CvdTrend : Type 0 where
  up down flat : CvdTrend

pub data CvdSource : Type 0 where
  taker_delta mixed ohlcv_proxy : CvdSource

pub record CvdResult (N : Numbers) : Type 0 where
  pub cvd : N.Float
  pub delta : N.Float
  pub makes_new_high : Bool
  pub makes_new_low : Bool
  pub trend : CvdTrend
  pub source : CvdSource

-- Whether a delta is of the source `TAKER_DELTA`.
abbrev pub is_taker : CvdSource → Bool
is_taker taker_delta = true
is_taker _ = false

module _ (N : Numbers) where
  open N use {Float, float, lit, add, sub, mul, neg, lt, dec_lt, dec_lit}

  abbrev pub proxy : Kline N → Float
  proxy candle =
      if dec_lt candle.open_price candle.close
      then float candle.volume
      else if dec_lt candle.close candle.open_price
      then neg (float candle.volume)
      else nought N

  -- The delta of one candle and its source, lines 22 to 35.
  pub candle_delta : Kline N → Float × CvdSource
  candle_delta candle = elim candle.taker_buy_volume [
    | none ↦ (proxy candle, ohlcv_proxy)
    | some taker ↦
        if dec_lt (dec_lit 0 0) candle.volume
        then (
          let buy = fmin N (fmax N (float taker) (nought N)) (float candle.volume) in
              sub (mul buy (lit 2 0)) (float candle.volume),
          taker_delta,
        )
        else (proxy candle, ohlcv_proxy)
  ]

  -- The running totals of lines 38 to 42.
  pub totals_from : Float → List Float → List Float
  totals_from total [] = []
  totals_from total (d ∷ ds) = let next = add total d in next ∷ totals_from next ds

  abbrev pub count_taker : List CvdSource → ℕ
  count_taker [] = 0
  count_taker (s ∷ ss) = if is_taker s then suc (count_taker ss) else count_taker ss

  pub source_of : List CvdSource → CvdSource
  source_of sources =
      let takers = count_taker sources in
      if takers == length sources then taker_delta else if ltb 0 takers then mixed else ohlcv_proxy

  abbrev pub trend_of : Float → CvdTrend
  trend_of delta = if lt (nought N) delta then up else if lt delta (nought N) then down else flat

  -- `bool(previous) and current > max(previous)`
  abbrev pub exceeds : Float → List Float → Bool
  exceeds current [] = false
  exceeds current (x ∷ xs) = lt (fmax_from N x xs) current

  abbrev pub undercuts : Float → List Float → Bool
  undercuts current [] = false
  undercuts current (x ∷ xs) = lt current (fmin_from N x xs)

  pub deltas : List (Kline N) → List Float
  deltas candles = map (λ (c : Kline N). (candle_delta c).0) candles

  pub sources : List (Kline N) → List CvdSource
  sources candles = map (λ (c : Kline N). (candle_delta c).1) candles

  abbrev empty_cvd : CvdResult N
  empty_cvd = record {
    cvd = nought N;
    delta = nought N;
    makes_new_high = false;
    makes_new_low = false;
    trend = flat;
    source = ohlcv_proxy;
  }

  abbrev pub cvd_of : Option Float → Option Float → List Float → CvdSource → Option (CvdResult N)
  cvd_of (some current) (some delta) previous source = some (record {
    cvd = current;
    delta = delta;
    makes_new_high = exceeds current previous;
    makes_new_low = undercuts current previous;
    trend = trend_of delta;
    source = source;
  })
  cvd_of _ _ previous source = none

  -- `calculate_cvd_proxy`, for a positive `lookback`; `none` is the IndexError of an empty window.
  pub calculate_cvd_proxy : List (Kline N) → ℕ → Option (CvdResult N)
  calculate_cvd_proxy [] lookback = some empty_cvd
  calculate_cvd_proxy (c ∷ cs) lookback =
      let all = deltas (c ∷ cs) in
      let values = totals_from (nought N) (take_last lookback all) in
      cvd_of (get_last? values) (get_last? all) (drop_last values)
        (source_of (take_last lookback (sources (c ∷ cs))))
