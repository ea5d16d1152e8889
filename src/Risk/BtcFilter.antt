-- ===== src/Risk/BtcFilter.antt =====
-- app/risk/btc_filter.py: the state of the Bitcoin market that gates the Ethereum strategies.
use protocol_monitor.Common.{
  ◌≡◌, String, Bool, true, false, not, ◌&&◌, ◌||◌, Option, some, List, get_last?, if◌then◌else◌,
  arith,
}
use protocol_monitor.Numbers.{Numbers, nought}
use protocol_monitor.Market.Kline.{Kline}
use protocol_monitor.Indicators.Macd.{MacdResult}
use protocol_monitor.Indicators.Cvd.{CvdResult}
use protocol_monitor.Indicators.Structure.{StructureState}

pub record BtcFilterState : Type 0 where
  pub strong_bullish : Bool
  pub strong_bearish : Bool
  pub neutral : Bool
  pub reason : String

abbrev insufficient : BtcFilterState
insufficient = record {
  strong_bullish = false;
  strong_bearish = false;
  neutral = true;
  reason = "insufficient BTC context";
}

module _ (N : Numbers) where
  open N use {Float, float, lt}

  -- Lines 26 to 33, with the swings and the last close.
  pub judge : Float → Float → Float → MacdResult N → CvdResult N → BtcFilterState
  judge high low close macd cvd =
      if lt high close && (lt (nought N) macd.histogram && lt (nought N) cvd.delta)
      then record {
        strong_bullish = true;
        strong_bearish = false;
        neutral = false;
        reason = "BTC 15m broke swing high with positive MACD and CVD";
      }
      else if lt close low && (lt macd.histogram (nought N) && lt cvd.delta (nought N))
      then record {
        strong_bullish = false;
        strong_bearish = true;
        neutral = false;
        reason = "BTC 15m broke swing low with negative MACD and CVD";
      }
      else record {
        strong_bullish = false;
        strong_bearish = false;
        neutral = true;
        reason = "BTC neutral";
      }

  abbrev pub judge_with :
      Option Float
      → Option Float
      → Option (Kline N)
      → Bool
      → MacdResult N
      → CvdResult N
      → BtcFilterState
  judge_with (some high) (some low) (some last) true macd cvd =
      judge high low (float last.close) macd cvd
  judge_with _ _ _ _ macd cvd = insufficient

  -- `evaluate_btc_filter`
  pub evaluate_btc_filter :
      List (Kline N) → MacdResult N → CvdResult N → StructureState N → BtcFilterState
  evaluate_btc_filter candles macd cvd structure =
      judge_with structure.last_swing_high structure.last_swing_low (get_last? candles)
        (structure.swing_high_confirmed && structure.swing_low_confirmed) macd cvd

  -- Exactly one of the three verdicts holds; a strong one needs both swings confirmed, and a
  -- histogram and a delta of its sign.
  pub evaluate_btc_filter_lem :
      (candles : List (Kline N)) (macd : MacdResult N) (cvd : CvdResult N)
      (structure : StructureState N)
      → let s = evaluate_btc_filter candles macd cvd structure in
        (s.neutral ≡ not (s.strong_bullish || s.strong_bearish))
        × (s.strong_bullish && s.strong_bearish ≡ false)
        × (s.strong_bullish || s.strong_bearish ≡ true
            → structure.swing_high_confirmed && structure.swing_low_confirmed ≡ true)
        × (s.strong_bullish ≡ true
            → (lt (nought N) macd.histogram ≡ true) × (lt (nought N) cvd.delta ≡ true))
        × (s.strong_bearish ≡ true
            → (lt macd.histogram (nought N) ≡ true) × (lt cvd.delta (nought N) ≡ true))
  unfolding evaluate_btc_filter judge
  evaluate_btc_filter_lem candles macd cvd structure = ground arith
