-- ===== src/Signals/Lifecycle/Transitions.antt =====
-- One row under one candle: which states follow, and what a result says of the prices.
use protocol_monitor.Common.{
  ℕ, ◌≡◌, ◌⊎◌, String, Bool, true, false, not, Option, none, some, str_eq, arith, refl,
}
use protocol_monitor.Numbers.{Numbers}
use protocol_monitor.Market.Kline.{Kline, DateTime}
use protocol_monitor.Signals.Models.{SignalRow}
use protocol_monitor.Storage.Signals.{Changes, apply_changes, is_manageable}
use protocol_monitor.Signals.Lifecycle.{
  Levels, is_managing, stop_hit, target_hit, is_overdue, decide, Outcome, stopped, reached_tp1, won,
  timed_out, quiet, consequence, classify,
}

module _ (N : Numbers) where
  -- The row after what `_advance` writes.
  abbrev pub updated : Option Changes → SignalRow N → SignalRow N
  updated none r = r
  updated (some c) r = apply_changes N c r

  -- What of a row stays in the row that follows it: a first target that was reached, the state
  -- MANAGING, that it is managed at all, and what is recorded of its end.
  pub record Persists (r next : SignalRow N) : Type 0 where
    pub first_target : r.tp1_reached ≡ true → next.tp1_reached ≡ true
    pub managing_status : str_eq r.status "MANAGING" ≡ true → str_eq next.status "MANAGING" ≡ true
    pub managing : is_managing N r ≡ true → is_managing N next ≡ true
    pub end :
        (next.sl_reached ≡ r.sl_reached)
        × (next.resolved_at ≡ r.resolved_at)
        × (next.expired_at ≡ r.expired_at)

  consequence-is_manageable :
      (r : SignalRow N) (now : DateTime) (o : Outcome)
      → is_manageable N r ≡ true
      → let (changes, resolved) = consequence N (is_managing N r) now o in
        (is_manageable N (updated changes r) ≡ not resolved)
        × (resolved ≡ false → Persists r (updated changes r))
  unfolding is_managing is_manageable apply_changes
  consequence-is_manageable r now stopped h = (refl, λ e. cc)
  consequence-is_manageable r now reached_tp1 h = (
    ground arith,
    λ e. record {
      first_target = λ m. refl;
      managing_status = λ m. refl;
      managing = λ m. refl;
      end = (refl, refl, refl);
    },
  )
  consequence-is_manageable r now won h = (refl, λ e. cc)
  consequence-is_manageable r now timed_out h = (refl, λ e. cc)
  consequence-is_manageable r now quiet h = (
    h,
    λ e. record {
      first_target = λ m. m;
      managing_status = λ m. m;
      managing = λ m. m;
      end = (refl, refl, refl);
    },
  )

  abbrev pub has_result : String → SignalRow N → Bool
  has_result name r = elim r.result [ none ↦ false | some result ↦ str_eq result name ]

  -- What the result and the first target of a row say of the candle that set them. A loss: the
  -- stop was touched before the first target was reached. A break-even: the entry was touched after
  -- it. A win: the target was reached after it, on a bar that does not touch the entry. The first
  -- target is reached only on a bar that does not touch the stop.
  pub record IsHonest (r : SignalRow N) (managing stop target : Bool) (next : SignalRow N)
      : Type 0 where
    pub loss :
        has_result "LOSS_SL" next ≡ true
        → has_result "LOSS_SL" r ≡ false
        → (managing ≡ false) × (stop ≡ true)
    pub breakeven :
        has_result "BREAKEVEN_AFTER_TP1" next ≡ true
        → has_result "BREAKEVEN_AFTER_TP1" r ≡ false
        → (managing ≡ true) × (stop ≡ true)
    pub win :
        has_result "WIN_TP2" next ≡ true
        → has_result "WIN_TP2" r ≡ false
        → (managing ≡ true) × (target ≡ true) × (stop ≡ false)
    pub first_target :
        next.tp1_reached ≡ true
        → r.tp1_reached ≡ false
        → (managing ≡ false) × (target ≡ true) × (stop ≡ false)

  -- What `classify` has found where it takes a branch.
  abbrev Fits : Bool → Bool → Bool → Outcome → Type 0
  Fits managing stop target stopped = stop ≡ true
  Fits managing stop target reached_tp1 = (stop ≡ false) × (target ≡ true) × (managing ≡ false)
  Fits managing stop target won = (stop ≡ false) × (target ≡ true) × (managing ≡ true)
  Fits managing stop target timed_out = stop ≡ false
  Fits managing stop target quiet = stop ≡ false

  consequence-IsHonest :
      (r : SignalRow N) (managing stop target : Bool) (now : DateTime) (o : Outcome)
      → Fits managing stop target o
      → IsHonest r managing stop target (updated (consequence N managing now o).0 r)
  unfolding apply_changes
  consequence-IsHonest r true stop target now stopped h = ground arith
  consequence-IsHonest r false stop target now stopped h = ground arith
  consequence-IsHonest r managing stop target now reached_tp1 h = ground arith
  consequence-IsHonest r managing stop target now won h = ground arith
  consequence-IsHonest r managing stop target now timed_out h = ground arith
  consequence-IsHonest r managing stop target now quiet h = ground arith

  module _ (max_hold_hours : ℕ) (r : SignalRow N) (l : Levels N) (candle : Kline N)
      (now : DateTime) where
    abbrev pub next : SignalRow N
    next = updated (decide N max_hold_hours r l candle now).0 r

    abbrev pub reported : Bool
    reported = (decide N max_hold_hours r l candle now).1

    -- A row that can be managed leaves the manageable rows exactly when `_advance` reports it as
    -- resolved. While it stays, a first target that was reached stays reached, the state MANAGING
    -- stays, and its stop flag and the times of its resolution and expiry stay as they are.
    pub decide-is_manageable :
        is_manageable N r ≡ true
        → (is_manageable N next ≡ not reported) × (reported ≡ false → Persists r next)
    unfolding decide
    decide-is_manageable h =
        consequence-is_manageable r now (classify N max_hold_hours r l candle now) h

    -- A Micro row past its holding time that has not reached its first target is resolved by the
    -- next candle, or reaches that target on it.
    pub decide-overdue :
        is_overdue N max_hold_hours r now ≡ true
        → (reported ≡ true) ⊎ ((next.tp1_reached ≡ true) × (target_hit N r l candle ≡ true))
    unfolding decide classify apply_changes is_overdue
    decide-overdue due = ground arith

    classify-Fits :
        Fits
          (is_managing N r)
          (stop_hit N r l candle)
          (target_hit N r l candle)
          (classify N max_hold_hours r l candle now)
    unfolding classify
    classify-Fits = ground arith

    -- The result and the first target that `_advance` writes are honest about the candle: a new loss,
    -- break-even, win or first target has the touches of stop and target that it names.
    pub decide-IsHonest :
        IsHonest r (is_managing N r) (stop_hit N r l candle) (target_hit N r l candle) next
    unfolding decide
    decide-IsHonest =
        consequence-IsHonest r (is_managing N r) (stop_hit N r l candle) (target_hit N r l candle)
          now (classify N max_hold_hours r l candle now) classify-Fits
