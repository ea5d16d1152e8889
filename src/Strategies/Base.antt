-- ===== src/Strategies/Base.antt =====
-- `StrategyState` and `BaseStrategy` of app/strategies/base.py, with the states of
-- app/strategies/state_machine.py. What a call takes from outside, the clock and `uuid4`, is an
-- `Outside`; hours since a state was entered compare as exact times.
pub mod Locks
mod Tests
use protocol_monitor.Common.{
  ℕ, suc, ◌+◌, ◌-◌, ◌*◌, String, digits, Bool, true, false, not, ◌&&◌, ◌||◌, Option, none, some,
  List, [], ◌∷◌, ◌++◌, keep, take_last, get_last?, Dict, lookup, insert, str_eq, if◌then◌else◌, ltb,
  leb, ◌==◌,
}
use Prim.Native.String.{◌++◌ as text_append}
use protocol_monitor.Numbers.{Numbers, nought}
use protocol_monitor.Market.Kline.{Kline, DateTime, hours}
use protocol_monitor.Market.Store.{Key, Store, get_recent, last_items}
use protocol_monitor.Indicators.Cvd.{
  CvdResult, CvdTrend, up, down, flat, CvdSource, taker_delta, mixed, ohlcv_proxy,
  calculate_cvd_proxy,
}
use protocol_monitor.Risk.BtcFilter.{BtcFilterState}
use protocol_monitor.Signals.Models.{
  Signal, SignalLevel, l4, level_value, Json, null, flag, int, number, text,
}

-- `StrategyStateEnum`
pub data StrategyStateEnum : Type 0 where
  idle watching armed triggered managing invalid cooldown expired : StrategyStateEnum

abbrev pub state_value : StrategyStateEnum → String
state_value idle = "IDLE"
state_value watching = "WATCHING"
state_value armed = "ARMED"
state_value triggered = "TRIGGERED"
state_value managing = "MANAGING"
state_value invalid = "INVALID"
state_value cooldown = "COOLDOWN"
state_value expired = "EXPIRED"

-- `in {TRIGGERED, MANAGING}`
abbrev pub is_in_trade : StrategyStateEnum → Bool
is_in_trade triggered = true
is_in_trade managing = true
is_in_trade _ = false

-- `in {INVALID, EXPIRED, COOLDOWN}`
abbrev pub is_terminal : StrategyStateEnum → Bool
is_terminal invalid = true
is_terminal expired = true
is_terminal cooldown = true
is_terminal _ = false

-- What a call takes from outside: the clock, and the hex digits of its signals' ids in turn.
pub record Outside : Type 0 where
  pub utcnow : DateTime
  pub hex : ℕ → String

module _ (N : Numbers) where
  open N use {Float, Decimal, lit, div, round}

  pub record StrategyState : Type 0 where
    pub state : StrategyStateEnum
    pub context : Dict (Json N)
    pub entered_state_at : DateTime

  -- `BaseStrategy`, with the fields of its configuration that it reads.
  pub record Strategy : Type 0 where
    pub id : String
    pub exchange : String
    pub symbol : String
    pub book : String
    pub strategy_name : String
    pub direction : String
    pub max_hold_hours : ℕ
    pub state : StrategyState

  -- `StrategyState()`
  abbrev pub new_state : Outside → StrategyState
  new_state o = record { state = idle; context = []; entered_state_at = o.utcnow }

  abbrev pub same_state : StrategyStateEnum → StrategyStateEnum → Bool
  same_state a b = str_eq (state_value a) (state_value b)

  -- `context.update(...)`
  abbrev pub update : Dict (Json N) → Dict (Json N) → Dict (Json N)
  update context [] = context
  update context ((k, v) ∷ more) = update (insert k v context) more

  -- `_set_state`
  unfoldable pub set_state : Outside → StrategyStateEnum → Dict (Json N) → Strategy → Strategy
  set_state o new more s = record s {
    state = record {
      state = new;
      context = update s.state.context more;
      entered_state_at =
          if same_state s.state.state new then s.state.entered_state_at else o.utcnow;
    };
  }

  -- `_entry_locked`, with the strategy after it.
  unfoldable pub entry_locked : Outside → DateTime → ℕ → Strategy → Bool × Strategy
  entry_locked o now cooldown_hours s =
      if is_in_trade s.state.state
      then (true, s)
      else if not (is_terminal s.state.state)
      then (false, s)
      else if ltb now (s.state.entered_state_at + hours cooldown_hours)
      then (true, s)
      else (false, record s { state = new_state o })

  abbrev pub holds_id : String → Option (Json N) → Bool
  holds_id id (some (text t)) = str_eq t id
  holds_id id _ = false

  -- `on_signal_resolved`
  unfoldable pub on_signal_resolved : String → DateTime → Strategy → Strategy
  on_signal_resolved signal_id resolved_at s =
      if not (holds_id signal_id (lookup "last_signal_id" s.state.context)) then s else record s {
        state = record {
          state = cooldown;
          context = ("resolved_signal_id", text signal_id) ∷ [];
          entered_state_at = resolved_at;
        };
      }

  -- `_closed_recent`
  pub closed_recent : Strategy → Store N → String → String → ℕ → List (Kline N)
  closed_recent s store symbol interval limit = last_items N limit (
      keep (λ (k : Kline N). k.is_closed)
        (get_recent N store (record { exchange = s.exchange; symbol = symbol; interval = interval })
          (limit * 2)))

  -- `_cvd`
  pub cvd_of_strategy : Strategy → Store N → String → ℕ → Option (CvdResult N)
  cvd_of_strategy s store interval lookback =
      calculate_cvd_proxy N (closed_recent s store s.symbol interval (lookback + 5)) lookback

  -- `_last_close`
  pub last_close : Strategy → Store N → String → Option Decimal
  last_close s store interval = elim (get_last? (closed_recent s store s.symbol interval 1)) [
    | none ↦ none
    | some k ↦ some k.close
  ]

  abbrev pub trend_value : CvdTrend → String
  trend_value up = "UP"
  trend_value down = "DOWN"
  trend_value flat = "FLAT"

  abbrev pub source_value : CvdSource → String
  source_value taker_delta = "TAKER_DELTA"
  source_value mixed = "MIXED"
  source_value ohlcv_proxy = "OHLCV_PROXY"

  -- `asdict` of a `CvdResult`.
  abbrev pub cvd_dict : CvdResult N → Dict (Json N)
  cvd_dict c =
      ("cvd", number c.cvd)
      ∷ ("delta", number c.delta)
      ∷ ("makes_new_high", flag c.makes_new_high)
      ∷ ("makes_new_low", flag c.makes_new_low)
      ∷ ("trend", text (trend_value c.trend))
      ∷ ("source", text (source_value c.source))
      ∷ []

  -- `asdict` of a `BtcFilterState`.
  abbrev pub btc_dict : BtcFilterState → Dict (Json N)
  btc_dict b =
      ("strong_bullish", flag b.strong_bullish)
      ∷ ("strong_bearish", flag b.strong_bearish)
      ∷ ("neutral", flag b.neutral)
      ∷ ("reason", text b.reason)
      ∷ []

  -- The keyword arguments of `_make_signal`.
  pub record Extras : Type 0 where
    pub entry : Option Decimal
    pub sl : Option Decimal
    pub tp1 : Option Decimal
    pub tp2 : Option Decimal
    pub tp3 : Option Decimal
    pub rr_to_tp1 : Option Float
    pub position_r : Float
    pub risk_flags : Dict (Json N)
    pub btc_filter : Option BtcFilterState
    pub flow_state : Option (CvdResult N)
    pub raw_snapshot : Dict (Json N)

  abbrev pub no_extras : Extras
  no_extras = record {
    entry = none;
    sl = none;
    tp1 = none;
    tp2 = none;
    tp3 = none;
    rr_to_tp1 = none;
    position_r = nought N;
    risk_flags = [];
    btc_filter = none;
    flow_state = none;
    raw_snapshot = [];
  }

  abbrev pub btc_dict_or_empty : Option BtcFilterState → Dict (Json N)
  btc_dict_or_empty none = []
  btc_dict_or_empty (some b) = btc_dict b

  abbrev pub cvd_dict_or_empty : Option (CvdResult N) → Dict (Json N)
  cvd_dict_or_empty none = []
  cvd_dict_or_empty (some c) = cvd_dict c

  abbrev pub signal_id_of : String → SignalLevel → String → String
  signal_id_of id level hex =
      text_append id (text_append "-" (text_append (level_value level) (text_append "-" hex)))

  -- `_make_signal`: the signal with the given hex digits, and the strategy after it.
  unfoldable pub make_signal :
      Outside
      → ℕ
      → SignalLevel
      → Decimal
      → String
      → String
      → String
      → Extras
      → Strategy
      → Signal N × Strategy
  make_signal o nth level price status reason invalid_condition extras s =
      let id = signal_id_of s.id level (o.hex nth) in
      (
        record {
          signal_id = id;
          exchange = s.exchange;
          symbol = s.symbol;
          book = s.book;
          strategy_name = s.strategy_name;
          level = level;
          direction = s.direction;
          status = status;
          trigger_price = price;
          entry = extras.entry;
          sl = extras.sl;
          tp1 = extras.tp1;
          tp2 = extras.tp2;
          tp3 = extras.tp3;
          rr_to_tp1 = extras.rr_to_tp1;
          position_r = extras.position_r;
          trigger_reason = reason;
          invalid_condition = invalid_condition;
          risk_flags = extras.risk_flags;
          btc_filter = btc_dict_or_empty extras.btc_filter;
          flow_state = cvd_dict_or_empty extras.flow_state;
          raw_snapshot = extras.raw_snapshot;
          created_at = o.utcnow;
          tp1_reached = false;
        },
        record s {
          state = record s.state { context = insert "last_signal_id" (text id) s.state.context };
        },
      )

  -- The hours of a time span, as a float.
  abbrev pub hours_of : ℕ → Float
  hours_of span = div (div (lit span 0) (lit 1_000_000 0)) (lit 3_600 0)

  -- `_time_stop_if_due`
  unfoldable pub time_stop_if_due :
      Outside → Decimal → DateTime → Strategy → Option (Signal N) × Strategy
  time_stop_if_due o price now s =
      if not (is_in_trade s.state.state)
      then (none, s)
      else if ltb now (s.state.entered_state_at + hours s.max_hold_hours)
      then (none, s)
      else let expired_strategy =
          set_state o expired (("time_stop_hours", int s.max_hold_hours) ∷ []) s in
        let (signal, final) =
          make_signal o 0 l4 price "EXPIRED"
            (text_append "Micro 信号已达到 " (text_append (digits s.max_hold_hours) "H 时间止损"))
            "未确认 TP1 的策略不得继续延长为 Macro 持仓"
            (record no_extras {
              risk_flags =
                  ("time_stop", flag true)
                  ∷ ("elapsed_hours", number (round (hours_of (now - s.state.entered_state_at)) 2))
                  ∷ [];
            })
            expired_strategy in
        (some signal, final)
