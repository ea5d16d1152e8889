-- ===== src/Signals/Router/Tests.antt =====
-- The router on the sample signal and empty tables.
use protocol_monitor.Common.{◌≡◌, refl, true, false, any_of, none, [], ◌∷◌, ◌++◌}
use protocol_monitor.Common.Int.{pos, quot, ◌*ℤ◌, ◌+ℤ◌, ◌-ℤ◌, neg_ℤ}
use protocol_monitor.Common.Upper.{upper, sorted_texts}
use protocol_monitor.Numbers.Fixed.{fixed, fixed-IsOrdered, fixed-IsRounded}
use protocol_monitor.Market.Kline.{minutes}
use protocol_monitor.Market.Samples.{price, signal}
use protocol_monitor.Risk.Portfolio.{
  default_clusters, assess, cap_all, cap_cluster, available_in, active_in, names_with, clusters_for,
  throttled, throttle,
}
use protocol_monitor.Risk.Cooldown.{allowed, key_eq}
use protocol_monitor.Storage.Signals.{new_row, has_id, save_signal, get_manageable_signals}
use protocol_monitor.Storage.RiskState.{get_portfolio_risk_state, by_resolution, settle_all}
use protocol_monitor.Signals.Router.{
  RouterConfig, RouterState, Routed, finished, Outside, is_entry, gate, route, apply_decision,
  notify_all,
}
use protocol_monitor.Signals.Router.Gate.{IsCapped, route-IsCapped}

abbrev config : RouterConfig fixed
config = record {
  risk = record {
    max_position_r = pos 5_000;
    max_cluster_r = pos 7_500;
    max_daily_loss_r = price 1;
    drawdown_throttle_start_pct = price 5;
    drawdown_stop_pct = price 10;
    consecutive_loss_throttle = 3;
  };
  clusters = default_clusters;
  risk_per_1r_pct = price 1;
  ordinary_minutes = 30;
  l4_minutes = 10;
  notifications_enabled = true;
  levels = "L3" ∷ [];
  channels = ("telegram", true) ∷ ("feishu", false) ∷ [];
}

abbrev outside : Outside fixed
outside = record {
  insert_refused = λ row table. any_of (has_id fixed row.signal_id) table;
  nulls_first = false;
  risk_now = minutes 600;
  now = minutes 600;
  sent_now = λ channel. minutes 600;
  render_signal = λ s. (s.signal_id, s.trigger_reason);
  send = λ channel title body. record { is_ok = true; error = none };
}

abbrev empty : RouterState fixed
empty = record { signals = []; notifications = []; sent = [] }

-- What the route leaves.
abbrev left_by : Routed fixed → RouterState fixed
left_by (finished s) = s
left_by _ = empty

abbrev routed : RouterState fixed
routed = left_by (route fixed config outside signal "cm2" empty)

route_run : route fixed config outside signal "cm2" empty ≡ finished routed
unfolding route save_signal allowed notify_all gate apply_decision assess get_portfolio_risk_state
    by_resolution settle_all get_manageable_signals cap_all cap_cluster available_in active_in
    names_with clusters_for throttled throttle upper sorted_texts quot ◌*ℤ◌ ◌+ℤ◌ ◌-ℤ◌ neg_ℤ key_eq
route_run = refl

route-IsCapped_example :
    let s = gate fixed config outside [] signal in
    (routed.signals ≡ [] ++ (new_row fixed s ∷ []))
    × (is_entry fixed s ≡ true → IsCapped fixed fixed-IsOrdered fixed-IsRounded config [] signal s)
route-IsCapped_example =
    route-IsCapped fixed fixed-IsOrdered fixed-IsRounded config refl outside signal "cm2" empty
      routed route_run
