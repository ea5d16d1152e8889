-- ===== src/Strategies/Base/Tests.antt =====
-- The locks of a strategy at one trade.
use protocol_monitor.Common.{
  ◌+◌, ◌≡◌, Option, refl, true, false, none, some, [], ◌∷◌, if◌then◌else◌, ltb,
}
use protocol_monitor.Numbers.Fixed.{fixed}
use protocol_monitor.Market.Kline.{minutes, hours}
use protocol_monitor.Market.Samples.{price, signal}
use protocol_monitor.Signals.Models.{Signal, text}
use protocol_monitor.Strategies.Base.{
  triggered, cooldown, Outside, Strategy, new_state, entry_locked, on_signal_resolved,
  time_stop_if_due,
}
use protocol_monitor.Strategies.Base.Locks.{
  on_signal_resolved-entry_locked, IsStopped, time_stop_if_due-IsStopped,
}

abbrev outside : Outside
outside = record { utcnow = minutes 0; hex = λ n. "0123456789" }

abbrev in_trade : Strategy fixed
in_trade = record {
  id = "stand";
  exchange = "BINANCE";
  symbol = "ETHUSDT";
  book = "Micro";
  strategy_name = "stand";
  direction = "LONG";
  max_hold_hours = 48;
  state = record {
    state = triggered;
    context = ("last_signal_id", text "s1") ∷ [];
    entered_state_at = minutes 0;
  };
}

on_signal_resolved-entry_locked_example :
    let next = on_signal_resolved fixed "s1" (hours 1) in_trade in
    (next.state.state ≡ cooldown)
    × (entry_locked fixed outside (hours 6) 4 next ≡ (
        if ltb (hours 6) (hours 1 + hours 4)
        then (true, next)
        else (false, record next { state = new_state fixed outside })))
on_signal_resolved-entry_locked_example =
    on_signal_resolved-entry_locked fixed outside signal in_trade (hours 1) (hours 6) 4 refl

-- The strategy and the signal of its time stop after 50 hours.
abbrev stopped : Option (Signal fixed) × Strategy fixed
stopped = time_stop_if_due fixed outside (price 100) (hours 50) in_trade

abbrev given : Option (Signal fixed) → Signal fixed
given none = signal
given (some s) = s

time_stop_if_due-IsStopped_example : IsStopped fixed outside (given (stopped.0)) (stopped.1)
unfolding time_stop_if_due
time_stop_if_due-IsStopped_example =
    time_stop_if_due-IsStopped fixed outside (price 100) (hours 50) in_trade (given (stopped.0))
      refl
