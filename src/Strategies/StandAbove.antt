-- ===== src/Strategies/StandAbove.antt =====
-- `EthStandAboveLevel` of app/strategies/eth_stand_above_level.py.
pub mod Entries
mod Tests
use protocol_monitor.Common.{
  ℕ, String, Bool, true, false, not, ◌&&◌, ◌||◌, Option, none, some, List, [], ◌∷◌, all_of, str_eq,
  if◌then◌else◌,
}
use protocol_monitor.Numbers.{Numbers, nought}
use protocol_monitor.Market.Kline.{Kline, DateTime}
use protocol_monitor.Market.Store.{Store}
use protocol_monitor.Indicators.Cvd.{CvdResult}
use protocol_monitor.Signals.Models.{Signal, l2, l3, l4}
use protocol_monitor.Strategies.Base.{
  watching, triggered, invalid, Outside, Strategy, set_state, entry_locked, closed_recent,
  cvd_of_strategy, Extras, no_extras, make_signal, time_stop_if_due,
}

module _ (N : Numbers) where
  open N use {Decimal, lt, dec_lt, dec_le}

  -- `config["levels"]`, as decimals.
  pub record StandLevels : Type 0 where
    pub stand_above : Decimal
    pub support_low : Decimal
    pub fail_back : Decimal

  -- `StrategyContext`
  pub record StrategyContext : Type 0 where
    pub event : Kline N
    pub store : Store N
    pub now : DateTime

  -- `len(lows) == 2 and min(lows) >= support`
  abbrev pub holds_support : Decimal → List (Kline N) → Bool
  holds_support support (a ∷ b ∷ []) = dec_le support (if dec_lt b.low a.low then b.low else a.low)
  holds_support support _ = false

  -- The condition of the entry, line 36.
  pub is_entry : StandLevels → StrategyContext → Strategy N → CvdResult N → Bool
  is_entry levels context s cvd =
      holds_support levels.support_low (closed_recent N s context.store s.symbol "5m" 2)
      && (all_of (λ (c : Kline N). dec_le levels.fail_back c.close)
            (closed_recent N s context.store s.symbol "5m" 6)
          && lt (nought N) cvd.delta)

  abbrev pub with_flow : CvdResult N → Extras N
  with_flow cvd = record (no_extras N) { flow_state = some cvd }

  -- Lines 24 to 39, after the locks.
  pub evaluate :
      Outside
      → StandLevels
      → StrategyContext
      → Strategy N
      → CvdResult N
      → List (Signal N) × Strategy N
  evaluate o levels context s cvd =
      let price = context.event.close in
      let (failure, failed) =
        make_signal N o 0 l4 price "INVALID" "5M 收盘跌回 1583，站稳 1605 失败" "不要把短线反弹当作宏观反转"
          (with_flow cvd) (set_state N o invalid [] s) in
      let (watch, watched) =
        make_signal N o 0 l2 price "WATCHING" "15M 收盘站上 1605" "5M 收盘跌回 1583" (with_flow cvd)
          (set_state N o watching [] s) in
      let (entry, entered) =
        make_signal N o 1 l3 price "TRIGGERED"
          "15M 站上 1605，最近两根 5M low >= 1600，30 分钟未跌回 1583，CVD delta > 0" "这不是宏观反转，宏观修复最低仍需 1982-2044"
          (with_flow cvd) (set_state N o triggered [] watched) in
      if str_eq context.event.interval "5m" && dec_lt price levels.fail_back
      then (failure ∷ [], failed)
      else if not (str_eq context.event.interval "15m") || dec_le price levels.stand_above
      then ([], s)
      else if is_entry levels context s cvd
      then (watch ∷ entry ∷ [], entered)
      else (watch ∷ [], watched)

  abbrev pub evaluate_with :
      Outside
      → StandLevels
      → StrategyContext
      → Strategy N
      → Option (CvdResult N)
      → Option (List (Signal N) × Strategy N)
  evaluate_with o levels context s none = none
  evaluate_with o levels context s (some cvd) = some (evaluate o levels context s cvd)

  -- Lines 17 to 22.
  abbrev pub after_lock :
      Outside
      → StandLevels
      → StrategyContext
      → Bool × Strategy N
      → Option (List (Signal N) × Strategy N)
  after_lock o levels context (locked, s) =
      if locked
      then some ([], s)
      else evaluate_with o levels context s (cvd_of_strategy N s context.store "15m" 20)

  -- Lines 15 to 17.
  abbrev pub after_time_stop :
      Outside
      → StandLevels
      → StrategyContext
      → Option (Signal N) × Strategy N
      → Option (List (Signal N) × Strategy N)
  after_time_stop o levels context (some expired, s) = some (expired ∷ [], s)
  after_time_stop o levels context (none, s) =
      after_lock o levels context (entry_locked N o context.now 4 s)

  -- `on_market_update`; `none` is an exception.
  pub on_market_update :
      Outside → StandLevels → StrategyContext → Strategy N → Option (List (Signal N) × Strategy N)
  on_market_update o levels context s =
      if not (str_eq context.event.symbol s.symbol) || not context.event.is_closed
      then some ([], s)
      else after_time_stop o levels context (time_stop_if_due N o context.event.close context.now s)
