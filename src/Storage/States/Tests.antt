-- ===== src/Storage/States/Tests.antt =====
-- Saving the state of one of two strategies.
use protocol_monitor.Common.{String, ◌≡◌, none, some, [], ◌∷◌, lookup, str_eq, if◌then◌else◌}
use protocol_monitor.Numbers.Fixed.{fixed}
use protocol_monitor.Market.Kline.{minutes}
use protocol_monitor.Storage.States.{
  StrategyRow, save_strategy_state, get_strategy_states, get_strategy_states-save_strategy_state,
}

abbrev state_of : String → String → StrategyRow fixed
state_of id state = record {
  strategy_id = id;
  exchange = "BINANCE";
  symbol = "ETHUSDT";
  book = "Micro";
  strategy_name = id;
  state = state;
  direction = "LONG";
  context = [];
  last_signal_id = none;
  entered_state_at = minutes 0;
  updated_at = minutes 5;
}

get_strategy_states-save_strategy_state_example :
    lookup "cm3" (
      get_strategy_states fixed (
        save_strategy_state fixed
          (state_of "cm2" "WATCHING")
          (state_of "cm2" "IDLE" ∷ state_of "cm3" "ARMED" ∷ [])))
    ≡ (if str_eq "cm2" "cm3"
        then some (state_of "cm2" "WATCHING")
        else lookup "cm3"
            (get_strategy_states fixed (state_of "cm2" "IDLE" ∷ state_of "cm3" "ARMED" ∷ [])))
get_strategy_states-save_strategy_state_example =
    get_strategy_states-save_strategy_state fixed (state_of "cm2" "WATCHING")
      (state_of "cm2" "IDLE" ∷ state_of "cm3" "ARMED" ∷ []) "cm3"
