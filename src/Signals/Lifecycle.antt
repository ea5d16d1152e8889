-- ===== src/Signals/Lifecycle.antt =====
-- `SignalLifecycleManager` of app/signals/lifecycle.py: triggered paper trades against closed candles.
pub mod Transitions
pub mod Batch
mod Tests
use protocol_monitor.Common.{
  ℕ, ◌+◌, ◌*◌, String, Bool, true, false, not, ◌&&◌, ◌||◌, Option, none, some, List, [], ◌∷◌,
  str_eq, if◌then◌else◌, leb,
}
use protocol_monitor.Numbers.{Numbers}
use protocol_monitor.Market.Kline.{Kline, DateTime, hours}
use protocol_monitor.Signals.Models.{Signal, SignalRow}
use protocol_monitor.Storage.Signals.{
  Changes, no_changes, Table, get_manageable_signals, update_signal_lifecycle,
}

-- The ways out of `_advance`.
pub data Outcome : Type 0 where
  stopped reached_tp1 won timed_out quiet : Outcome

module _ (N : Numbers) where
  open N use {Float, Decimal, float, le}

  -- The prices of a row that `_advance` reads; `none` is the TypeError of `float(None)`.
  pub record Levels : Type 0 where
    pub entry : Float
    pub stop : Float
    pub tp1 : Option Float
    pub tp2 : Option Float

  abbrev pub floated : Option Decimal → Option Float
  floated none = none
  floated (some d) = some (float d)

  abbrev pub levels : SignalRow N → Option Levels
  levels r = elim r.entry [
    | none ↦ none
    | some entry ↦ elim r.sl [
      | none ↦ none
      | some sl ↦ some (record {
        entry = float entry;
        stop = float sl;
        tp1 = floated r.tp1;
        tp2 = floated r.tp2;
      })
    ]
  ]

  pub is_managing : SignalRow N → Bool
  is_managing r = r.tp1_reached || str_eq r.status "MANAGING"

  abbrev pub is_long_row : SignalRow N → Bool
  is_long_row r = str_eq r.direction "LONG"

  -- Lines 36 and 37.
  pub stop_hit : SignalRow N → Levels → Kline N → Bool
  stop_hit r l candle =
      let effective = if is_managing r then l.entry else l.stop in
      if is_long_row r then le (float candle.low) effective else le effective (float candle.high)

  -- Line 38.
  abbrev pub target : SignalRow N → Levels → Option Float
  target r l = if is_managing r then (elim l.tp2 [ none ↦ l.tp1 | some t ↦ some t ]) else l.tp1

  abbrev pub reaches : SignalRow N → Kline N → Option Float → Bool
  reaches r candle none = false
  reaches r candle (some t) =
      if is_long_row r then le t (float candle.high) else le (float candle.low) t

  -- Lines 39 to 41.
  pub target_hit : SignalRow N → Levels → Kline N → Bool
  target_hit r l candle = reaches r candle (target r l)

  -- Lines 70 to 74.
  pub is_overdue : ℕ → SignalRow N → DateTime → Bool
  is_overdue max_hold_hours r now =
      str_eq r.book "Micro"
      && (not (is_managing r) && leb (r.created_at + hours max_hold_hours) now)

  -- The branches of `_advance`, lines 45 to 83, in their order.
  pub classify : ℕ → SignalRow N → Levels → Kline N → DateTime → Outcome
  classify max_hold_hours r l candle now =
      if stop_hit r l candle
      then stopped
      else if target_hit r l candle && not (is_managing r)
      then reached_tp1
      else if target_hit r l candle && is_managing r
      then won
      else if is_overdue max_hold_hours r now
      then timed_out
      else quiet

  -- What a branch writes to the row, if anything, and what `_advance` returns.
  abbrev pub consequence : Bool → DateTime → Outcome → Option Changes × Bool
  consequence managing now stopped = (
    some (record no_changes {
      status = some "RESOLVED";
      sl_reached = some (not managing);
      resolved_at = some now;
      result = some (if managing then "BREAKEVEN_AFTER_TP1" else "LOSS_SL");
    }),
    true,
  )
  consequence managing now reached_tp1 = (
    some (record no_changes {
      status = some "MANAGING";
      tp1_reached = some true;
      result = some "TP1_REACHED";
    }),
    false,
  )
  consequence managing now won = (
    some (record no_changes {
      status = some "RESOLVED";
      resolved_at = some now;
      result = some "WIN_TP2";
    }),
    true,
  )
  consequence managing now timed_out = (
    some (record no_changes {
      status = some "EXPIRED";
      expired_at = some now;
      resolved_at = some now;
      result = some "TIME_STOP";
    }),
    true,
  )
  consequence managing now quiet = (none, false)

  -- `_advance`
  pub decide : ℕ → SignalRow N → Levels → Kline N → DateTime → Option Changes × Bool
  decide max_hold_hours r l candle now =
      consequence (is_managing r) now (classify max_hold_hours r l candle now)

  abbrev pub write : String → Option Changes → Table N → Table N
  write id none table = table
  write id (some c) table = update_signal_lifecycle N id c table

  -- The loop of `on_closed_kline` over the rows that were read; `none` is the TypeError.
  pub advance_all :
      ℕ → Kline N → DateTime → List (SignalRow N) → Table N → Option (List String × Table N)
  advance_all max_hold_hours candle now [] table = some ([], table)
  advance_all max_hold_hours candle now (r ∷ rs) table =
      if leb candle.close_time r.created_at
      then advance_all max_hold_hours candle now rs table
      else elim (levels r) [
        | none ↦ none
        | some l ↦
            let (changes, resolved) = decide max_hold_hours r l candle now in
            elim (advance_all max_hold_hours candle now rs (write r.signal_id changes table)) [
              | none ↦ none
              | some (ids, final) ↦ some (if resolved then r.signal_id ∷ ids else ids, final)
            ]
      ]

  -- `on_closed_kline`, with `now` defaulting to the close of the candle.
  pub on_closed_kline : ℕ → Kline N → Option DateTime → Table N → Option (List String × Table N)
  on_closed_kline max_hold_hours candle now table =
      if not candle.is_closed
      then some ([], table)
      else let current : DateTime = elim now [ none ↦ candle.close_time | some t ↦ t ] in
        advance_all max_hold_hours candle current
          (get_manageable_signals N (some candle.exchange) (some candle.symbol) table) table
