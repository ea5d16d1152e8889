-- ===== src/Backtest/Orb.antt =====
-- app/backtest/orb.py: the retest's decisions replayed prefix by prefix into entry intents. The
-- dictionaries by date are functions of the number of the UTC day.
pub mod Replay
mod Tests
use protocol_monitor.Common.{
  ℕ, zero, suc, ◌+◌, ◌/◌, ◌==◌, Bool, true, false, ◌||◌, Option, none, some, List, [], ◌∷◌, ◌++◌,
  if◌then◌else◌,
}
use protocol_monitor.Numbers.{Numbers, nought}
use protocol_monitor.Market.Kline.{Kline, DateTime}
use protocol_monitor.Backtest.Engine.{EntryIntent}
use protocol_monitor.Strategies.OrbRetest.{
  OrbRetestConfig, Row, Clock, OrbSignal, Watch, triggered, waiting, OrbDecision, no_data,
  opening_range_forming, filtered, watched, evaluate_orb_retest,
}

-- `t in seen`
abbrev pub was_seen : DateTime → List DateTime → Bool
was_seen t [] = false
was_seen t (u ∷ us) = (t == u) || was_seen t us

-- The UTC day of an instant.
abbrev pub day_of : DateTime → ℕ
day_of t = t / 86_400_000_000

-- What the replay keeps: its rows and the signal times that it has seen.
pub record ReplayState (N : Numbers) : Type 0 where
  pub rows : List (Row N)
  pub seen : List DateTime

module _ (N : Numbers) where
  open N use {Float, float, lit}

  abbrev pub row_of : Kline N → Row N
  row_of bar = record {
    time = bar.open_time;
    open_price = float bar.open_price;
    high = float bar.high;
    low = float bar.low;
    close = float bar.close;
    volume = some (float bar.volume);
  }

  abbrev pub signal_of : OrbDecision N → Option (OrbSignal N)
  signal_of (watched (triggered s) base) = some s
  signal_of _ = none

  abbrev pub intent_of : Float → OrbSignal N → EntryIntent N
  intent_of risk_fraction s = record {
    direction = s.direction;
    stop = s.stop;
    target = s.target;
    reason = "deterministic_orb_retest";
    risk_fraction = risk_fraction;
    max_hold_bars = none;
    minimum_rr = nought N;
    strategy = "UNKNOWN";
  }

  module _ (clock : Clock) (mean : List Float → Float) (config : OrbRetestConfig N)
      (previous_closes sector_relative : ℕ → Option Float) (risk_fraction : Float) where
    -- The decision on the rows up to the bar.
    pub decision_at : List (Row N) → Kline N → OrbDecision N
    decision_at rows bar =
        evaluate_orb_retest N clock mean config rows (previous_closes (day_of bar.open_time))
          (sector_relative (day_of bar.open_time))

    -- Lines 43 to 53, on the signal of the decision, if it has one.
    abbrev pub take_signal :
        ℕ
        → List (Row N)
        → List DateTime
        → Option (OrbSignal N)
        → ReplayState N × List (ℕ × EntryIntent N)
    take_signal index rows seen none = (record { rows = rows; seen = seen }, [])
    take_signal index rows seen (some s) =
        if was_seen s.signal_time seen then (record { rows = rows; seen = seen }, []) else (
          record { rows = rows; seen = s.signal_time ∷ seen },
          (index, intent_of risk_fraction s) ∷ [],
        )

    -- The body of the loop.
    pub replay_bar : ReplayState N → ℕ → Kline N → ReplayState N × List (ℕ × EntryIntent N)
    replay_bar state index bar =
        let rows = state.rows ++ (row_of bar ∷ []) in
        take_signal index rows state.seen (signal_of (decision_at rows bar))

    pub replay_from : ReplayState N → ℕ → List (Kline N) → List (ℕ × EntryIntent N)
    replay_from state index [] = []
    replay_from state index (bar ∷ bars) =
        let (next, found) = replay_bar state index bar in found ++ replay_from next (suc index) bars

    abbrev pub nothing_seen : ReplayState N
    nothing_seen = record { rows = []; seen = [] }

    -- `build_orb_intents`
    pub build_orb_intents : List (Kline N) → List (ℕ × EntryIntent N)
    build_orb_intents bars = replay_from nothing_seen 0 bars
