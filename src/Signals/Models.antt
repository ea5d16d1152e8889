-- ===== src/Signals/Models.antt =====
-- `Signal` and `SignalLevel` of app/signals/models.py, and the row of the `signals` table of
-- app/storage/models.py that keeps one.
use protocol_monitor.Common.{ℕ, String, Bool, true, false, Option, List, Dict}
use protocol_monitor.Numbers.{Numbers}
use protocol_monitor.Market.Kline.{DateTime}

pub data SignalLevel : Type 0 where
  l1 l2 l3 l4 : SignalLevel

abbrev pub is_l3 : SignalLevel → Bool
is_l3 l3 = true
is_l3 _ = false

abbrev pub is_l4 : SignalLevel → Bool
is_l4 l4 = true
is_l4 _ = false

-- `SignalLevel.value`
abbrev pub level_value : SignalLevel → String
level_value l1 = "L1"
level_value l2 = "L2"
level_value l3 = "L3"
level_value l4 = "L4"

-- The values of the dictionaries that a signal carries.
pub data Json (N : Numbers) : Type 0 where
  null : Json N
  flag : Bool → Json N
  int : ℕ → Json N
  number : N.Float → Json N
  text : String → Json N
  texts : List String → Json N

pub record Signal (N : Numbers) : Type 0 where
  pub signal_id : String
  pub exchange : String
  pub symbol : String
  pub book : String
  pub strategy_name : String
  pub level : SignalLevel
  pub direction : String
  pub status : String
  pub trigger_price : N.Decimal
  pub entry : Option N.Decimal
  pub sl : Option N.Decimal
  pub tp1 : Option N.Decimal
  pub tp2 : Option N.Decimal
  pub tp3 : Option N.Decimal
  pub rr_to_tp1 : Option N.Float
  pub position_r : N.Float
  pub trigger_reason : String
  pub invalid_condition : String
  pub risk_flags : Dict (Json N)
  pub btc_filter : Dict (Json N)
  pub flow_state : Dict (Json N)
  pub raw_snapshot : Dict (Json N)
  pub created_at : DateTime
  pub tp1_reached : Bool

-- A row of the `signals` table: the signal, and the columns that its lifecycle fills.
pub record SignalRow (N : Numbers) : Type 0 where
  pub signal : Signal N
  pub open signal use *
  pub sl_reached : Bool
  pub resolved_at : Option DateTime
  pub expired_at : Option DateTime
  pub result : Option String
