-- ===== src/Strategies/StandAbove/Entries.antt =====
-- What an update of the strategy above a level returns.
use protocol_monitor.Common.{
  ◌+◌, ltb, ◌≡◌, refl, Bool, true, false, not, ◌&&◌, ◌||◌, Option, none, some, List, [], ◌∷◌,
  any_of, get_last?, str_eq, arith, Bool-cases, inl, inr,
}
use protocol_monitor.Market.Kline.{hours}
use protocol_monitor.Numbers.{Numbers}
use protocol_monitor.Numbers.Laws.{IsOrdered}
use protocol_monitor.Indicators.Cvd.{CvdResult}
use protocol_monitor.Signals.Models.{Signal, is_l3}
use protocol_monitor.Strategies.Base.{
  triggered, is_in_trade, Outside, Strategy, set_state, entry_locked, cvd_of_strategy, make_signal,
}
use protocol_monitor.Strategies.Base.Locks.{
  IsLast, make_signal-IsLast, time_stop_if_due_lem, cvd_of_strategy-some,
}
use protocol_monitor.Strategies.StandAbove.{
  StandLevels, StrategyContext, is_entry, evaluate, evaluate_with, after_lock, on_market_update,
}

module _ (N : Numbers) where
  open N use {lt, dec_le}

  abbrev pub has_entry : List (Signal N) → Bool
  has_entry = any_of (λ (s : Signal N). is_l3 s.level)

  -- The last signal returned, if any, is the strategy's last one.
  abbrev pub IsLastGiven : Option (Signal N) → Strategy N → Type 0
  IsLastGiven none next = Unit
  IsLastGiven (some signal) next = IsLast N signal next

  module _ (o : Outside) (levels : StandLevels N) (context : StrategyContext N) where
    -- An entry of the strategy `s`.
    pub record IsEntry (s next : Strategy N) : Type 0 where
      pub is_triggered : next.state.state ≡ triggered
      pub is_free : is_in_trade s.state.state ≡ false
      pub on_bar : str_eq context.event.interval "15m" ≡ true
      pub is_above : dec_le context.event.close levels.stand_above ≡ false

    evaluate-has_entry :
        (s : Strategy N) (cvd : CvdResult N)
        → let (signals, next) = evaluate N o levels context s cvd in
          has_entry signals ≡ true
          → (next.state.state ≡ triggered)
            × (str_eq context.event.interval "15m" ≡ true)
            × (dec_le context.event.close levels.stand_above ≡ false)
    unfolding evaluate make_signal set_state
    evaluate-has_entry s cvd h = ground arith

    evaluate-IsLastGiven :
        (s : Strategy N) (cvd : CvdResult N)
        → let (signals, next) = evaluate N o levels context s cvd in
          IsLastGiven (get_last? signals) next
    unfolding evaluate
    evaluate-IsLastGiven s cvd =
        let price = context.event.close in
        elim (Bool-cases (str_eq context.event.interval "5m" && N.dec_lt price levels.fail_back)) [
          | inl failed ↦ rw failed (make_signal-IsLast N o 0 _ _ _ _ _ _ _)
          | inr fine ↦
              elim (Bool-cases
                (not (str_eq context.event.interval "15m") || dec_le price levels.stand_above)) [
                  | inl below ↦ rw (fine, below) tt
                  | inr above ↦ elim (Bool-cases (is_entry N levels context s cvd)) [
                    | inl entry ↦ rw (fine, above, entry) (make_signal-IsLast N o 1 _ _ _ _ _ _ _)
                    | inr quiet ↦ rw (fine, above, quiet) (make_signal-IsLast N o 0 _ _ _ _ _ _ _)
                  ]
                ]
        ]

    -- What an update gives: the new strategy, whose last signal is the last one given, and an entry
    -- only as `IsEntry` says.
    abbrev pub Gives : Strategy N → Option (List (Signal N) × Strategy N) → Type 0
    Gives s given =
        (signals : List (Signal N)) × (next : Strategy N) × (given ≡ some (signals, next))
        × IsLastGiven (get_last? signals) next
        × (has_entry signals ≡ true → IsEntry s next)

    evaluate-Gives :
        (s free : Strategy N) (cvd : Option (CvdResult N)) (c : CvdResult N)
        → cvd ≡ some c
        → is_in_trade s.state.state ≡ false
        → Gives s (evaluate_with N o levels context free cvd)
    evaluate-Gives s free cvd c e out = (
      (evaluate N o levels context free c).0,
      (evaluate N o levels context free c).1,
      rw e refl,
      evaluate-IsLastGiven free c,
      λ entry.
          let (state, bar, above) = evaluate-has_entry free c entry in
          record { is_triggered = state; is_free = out; on_bar = bar; is_above = above },
    )

    after_lock-Gives :
        (s : Strategy N) (locked : Bool) (free : Strategy N) (c : CvdResult N)
        → cvd_of_strategy N free context.store "15m" 20 ≡ some c
        → is_in_trade s.state.state ≡ false
        → Gives s (after_lock N o levels context (locked, free))
    after_lock-Gives s true free c found out = ([], free, refl, tt, λ e. cc)
    after_lock-Gives s false free c found out = evaluate-Gives s free _ c found out

    entry_locked-in_trade :
        (s : Strategy N)
        → is_in_trade s.state.state ≡ true
        → entry_locked N o context.now 4 s ≡ (true, s)
    unfolding entry_locked
    entry_locked-in_trade s h = rw h refl

    module _ (order : IsOrdered N) where
      -- An update never fails. The strategy it leaves names the last signal given as its last one,
      -- and it gives an entry signal only if it is not in a trade yet, is triggered after it, and
      -- the candle is of 15 minutes and closes above the level.
      pub on_market_update-Gives :
          (s : Strategy N) → Gives s (on_market_update N o levels context s)
      unfolding on_market_update
      on_market_update-Gives s =
          let (stays, stops) = time_stop_if_due_lem N o context.event.close context.now s in
          elim (Bool-cases
            (not (str_eq context.event.symbol s.symbol) || not context.event.is_closed)) [
              | inl other ↦ ([], s, rw other refl, tt, λ e. cc)
              | inr ours ↦ elim (Bool-cases (is_in_trade s.state.state)) [
                | inl in_trade ↦
                    elim (Bool-cases
                      (ltb context.now (s.state.entered_state_at + hours s.max_hold_hours))) [
                        | inl early ↦ (
                          [],
                          s,
                          rw
                              (
                                ours,
                                stays (rw (in_trade, early) refl),
                                entry_locked-in_trade s in_trade,
                              )
                              refl,
                          tt,
                          λ e. cc,
                        )
                        | inr late ↦
                            let (signal, next, given, level, state, last) =
                              stops (rw (in_trade, late) refl) in
                            (
                              signal ∷ [],
                              next,
                              rw (ours, given) refl,
                              last,
                              λ e. absurd (ground (arith, level)),
                            )
                      ]
                | inr out ↦
                    let (locked, free) = entry_locked N o context.now 4 s in
                    let (c, found) =
                      cvd_of_strategy-some N order free context.store "15m" 20 (omega arith) in
                    rw (ours, stays (rw out refl)) (after_lock-Gives s locked free c found out)
              ]
            ]
