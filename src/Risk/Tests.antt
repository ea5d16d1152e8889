-- ===== src/Risk/Tests.antt =====
-- The theorems on risk at concrete signals and calls.
use protocol_monitor.Common.{ℕ, ◌≡◌, refl, true, false, ◌||◌, some, [], ◌∷◌, All, arith}
use protocol_monitor.Common.Int.{pos, quot, ◌-ℤ◌, ◌*ℤ◌}
use protocol_monitor.Common.Upper.{sorted_texts}
use protocol_monitor.Numbers.{nought}
use protocol_monitor.Numbers.Fixed.{fixed, fixed-IsOrdered, fixed-IsRounded}
use protocol_monitor.Market.Kline.{minutes}
use protocol_monitor.Market.Samples.{price, signal}
use protocol_monitor.Indicators.Macd.{MacdResult}
use protocol_monitor.Indicators.Cvd.{CvdResult, up, taker_delta}
use protocol_monitor.Indicators.Structure.{StructureState, empty_state}
use protocol_monitor.Storage.Signals.{new_row}
use protocol_monitor.Risk.Levels.{calc_rr}
use protocol_monitor.Risk.Cooldown.{Call}
use protocol_monitor.Risk.Cooldown.Spacing.{run, IsSpaced, run-IsSpaced}
use protocol_monitor.Risk.Portfolio.{
  PortfolioRiskConfig, PortfolioRiskState, default_clusters, clusters_for, assess,
}
use protocol_monitor.Risk.Portfolio.Caps.{FitsCluster, assess-FitsCluster}

calc_rr_long :
    fixed.lt (nought fixed) (calc_rr fixed "LONG" (price 100) (price 90) (price 130)) ≡ true
unfolding calc_rr ◌-ℤ◌ quot ◌*ℤ◌
calc_rr_long = refl

abbrev bullish_macd : MacdResult fixed
bullish_macd = record { macd = price 3; signal = price 2; histogram = price 1 }

abbrev bullish_cvd : CvdResult fixed
bullish_cvd = record {
  cvd = price 4;
  delta = price 4;
  makes_new_high = true;
  makes_new_low = false;
  trend = up;
  source = taker_delta;
}

abbrev confirmed : StructureState fixed
confirmed = record (empty_state fixed) {
  last_swing_high = some (price 97);
  last_swing_low = some (price 80);
  swing_high_confirmed = true;
  swing_low_confirmed = true;
}

-- A call for one reason at a minute.
abbrev call : ℕ → Call
call m = record {
  symbol = "ETHUSDT";
  strategy_id = "cm2";
  level = "L3";
  reason = "breakout";
  now = minutes m;
  minutes = 30;
}

run-IsSpaced_example : IsSpaced (run (call 0 ∷ call 10 ∷ call 40 ∷ []) [])
run-IsSpaced_example =
    run-IsSpaced (call 0 ∷ call 10 ∷ call 40 ∷ []) []
      ((omega arith, (omega arith, tt)), ((omega arith, tt), (tt, tt)))

abbrev config : PortfolioRiskConfig fixed
config = record {
  max_position_r = pos 5_000;
  max_cluster_r = pos 7_500;
  max_daily_loss_r = price 1;
  drawdown_throttle_start_pct = price 5;
  drawdown_stop_pct = price 10;
  consecutive_loss_throttle = 3;
}

abbrev calm : PortfolioRiskState fixed
calm = record { daily_realized_r = pos 0; current_drawdown_pct = pos 0; consecutive_losses = 0 }

assess-FitsCluster_example :
    let d = assess fixed config default_clusters signal (new_row fixed signal ∷ []) calm in
    (fixed.le (nought fixed) d.allowed_position_r ≡ true)
    × (fixed.le d.allowed_position_r config.max_position_r ≡ true)
    × All
        (FitsCluster fixed fixed-IsOrdered fixed-IsRounded config default_clusters
          (new_row fixed signal ∷ [])
          d.allowed_position_r)
        (sorted_texts (clusters_for default_clusters "ETHUSDT"))
    × (d.blocked ≡ fixed.le d.allowed_position_r (nought fixed))
    × (fixed.le calm.daily_realized_r (fixed.neg config.max_daily_loss_r)
            || fixed.le config.drawdown_stop_pct calm.current_drawdown_pct
          ≡ true
        → d.blocked ≡ true)
assess-FitsCluster_example =
    assess-FitsCluster fixed fixed-IsOrdered fixed-IsRounded config default_clusters
      (new_row fixed signal ∷ []) signal calm refl
