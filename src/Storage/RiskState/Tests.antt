-- ===== src/Storage/RiskState/Tests.antt =====
-- The risk state of a win, a loss and an open trade.
use protocol_monitor.Common.{ℕ, String, ◌≡◌, some, [], ◌∷◌, keep, true}
use protocol_monitor.Numbers.{nought}
use protocol_monitor.Numbers.Fixed.{fixed, fixed-IsOrdered, fixed-IsRounded}
use protocol_monitor.Market.Kline.{minutes}
use protocol_monitor.Market.Samples.{price, signal}
use protocol_monitor.Signals.Models.{SignalRow}
use protocol_monitor.Storage.Signals.{Table, new_row}
use protocol_monitor.Storage.RiskState.{by_resolution, has_result, get_portfolio_risk_state}
use protocol_monitor.Storage.RiskState.Streak.{
  losing_streak, newest_results, get_portfolio_risk_state-losing_streak,
}

abbrev finished : ℕ → String → SignalRow fixed
finished m result = record (new_row fixed signal) {
  resolved_at = some (minutes m);
  result = some result;
}

abbrev table : Table fixed
table = finished 30 "LOSS_SL" ∷ finished 10 "WIN_TP2" ∷ new_row fixed signal ∷ []

get_portfolio_risk_state-losing_streak_example :
    let state = get_portfolio_risk_state fixed true (minutes 60) (price 1) table in
    (state.consecutive_losses
      ≡ losing_streak fixed
          (newest_results fixed (by_resolution fixed true (keep (has_result fixed) table)) []))
    × (fixed.le (nought fixed) state.current_drawdown_pct ≡ true)
get_portfolio_risk_state-losing_streak_example =
    get_portfolio_risk_state-losing_streak fixed fixed-IsOrdered true (minutes 60) (price 1) table
      fixed-IsRounded
