-- ===== src/Strategies/Base/Locks.antt =====
-- When a strategy may enter again: signals, their resolution, the time stop and the cooldown.
use protocol_monitor.Common.{
  ℕ, ◌+◌, ◌<◌, ◌≡◌, refl, String, true, false, not, ◌&&◌, none, some, [], ◌∷◌, lookup,
  lookup-insert_self, str_eq_self, if◌then◌else◌, ltb, Bool-cases, inl, inr, ap, ◌∙◌, arith,
}
use mathlib.Core.Option.{some-injective}
use protocol_monitor.Numbers.{Numbers}
use protocol_monitor.Market.Kline.{DateTime, hours}
use protocol_monitor.Signals.Models.{Signal, SignalLevel, l4, text, int}
use protocol_monitor.Strategies.Base.{
  StrategyStateEnum, idle, watching, armed, triggered, managing, invalid, same_state, cooldown,
  expired, is_in_trade, Outside, Strategy, new_state, set_state, entry_locked, on_signal_resolved,
  Extras, make_signal, time_stop_if_due, cvd_of_strategy, closed_recent,
}
use protocol_monitor.Numbers.Laws.{IsOrdered}
use protocol_monitor.Market.Store.{Store}
use protocol_monitor.Indicators.Cvd.{CvdResult}
use protocol_monitor.Indicators.Cvd.Meaning.{calculate_cvd_proxy-some}

module _ (N : Numbers) where
  open N use {Decimal}

  -- The strategy's context names the signal as its last one.
  abbrev pub IsLast : Signal N → Strategy N → Type 0
  IsLast signal s = lookup "last_signal_id" s.state.context ≡ some (text signal.signal_id)

  pub make_signal-IsLast :
      (o : Outside) (nth : ℕ) (level : SignalLevel) (price : Decimal)
      (status reason invalid_condition : String) (extras : Extras N) (s : Strategy N)
      → let (signal, next) =
          make_signal N o nth level price status reason invalid_condition extras s in
        IsLast signal next
  unfolding make_signal
  make_signal-IsLast o nth level price status reason invalid_condition extras s =
      lookup-insert_self "last_signal_id" _ s.state.context

  -- When the last signal of a strategy is resolved, the strategy is locked until the cooldown has
  -- passed since the resolution, and then idle with an empty context.
  pub on_signal_resolved-entry_locked :
      (o : Outside) (signal : Signal N) (s : Strategy N) (resolved_at now : DateTime)
      (cooldown_hours : ℕ)
      → IsLast signal s
      → let next = on_signal_resolved N signal.signal_id resolved_at s in
        (next.state.state ≡ cooldown)
        × (entry_locked N o now cooldown_hours next ≡ (
            if ltb now (resolved_at + hours cooldown_hours)
            then (true, next)
            else (false, record next { state = new_state N o })))
  unfolding on_signal_resolved entry_locked
  on_signal_resolved-entry_locked o signal s resolved_at now cooldown_hours last =
      rw (last, str_eq_self signal.signal_id) (refl, refl)

  pub time_stop_if_due_lem :
      (o : Outside) (price : Decimal) (now : DateTime) (s : Strategy N)
      → let due =
          is_in_trade s.state.state
          && not (ltb now (s.state.entered_state_at + hours s.max_hold_hours)) in
        (due ≡ false → time_stop_if_due N o price now s ≡ (none, s))
        × (due ≡ true
            → (signal : Signal N) × (next : Strategy N) × (time_stop_if_due N o price now s
                ≡ (some signal, next))
              × (signal.level ≡ l4)
              × (next.state.state ≡ expired)
              × IsLast signal next)
  unfolding time_stop_if_due make_signal set_state
  time_stop_if_due_lem o price now s = elim (Bool-cases (is_in_trade s.state.state)) [
    | inr out ↦ rw out (λ h. refl, λ h. cc)
    | inl in_trade ↦
        elim (Bool-cases (ltb now (s.state.entered_state_at + hours s.max_hold_hours))) [
          | inl early ↦ rw (in_trade, early) (λ h. refl, λ h. cc)
          | inr late ↦
              rw (in_trade, late)
                (
                  λ h. cc,
                  λ h. (
                    _,
                    _,
                    refl,
                    refl,
                    refl,
                    lookup-insert_self "last_signal_id" _
                        (set_state N o expired (("time_stop_hours", int s.max_hold_hours) ∷ [])
                          s).state.context,
                  ),
                )
        ]
  ]

  same_state-expired :
      (x : StrategyStateEnum) → is_in_trade x ≡ true → same_state N x expired ≡ false
  same_state-expired triggered h = refl
  same_state-expired managing h = refl
  same_state-expired idle h = absurd (ground arith)
  same_state-expired watching h = absurd (ground arith)
  same_state-expired armed h = absurd (ground arith)
  same_state-expired invalid h = absurd (ground arith)
  same_state-expired cooldown h = absurd (ground arith)
  same_state-expired expired h = absurd (ground arith)

  -- The strategy `next` after a time stop that gave `signal`, by the clock of `o`: it is not stopped
  -- again, it is locked for a cooldown from the stop on and then new, and the resolution of the
  -- signal locks it for a cooldown from the resolution on.
  pub record IsStopped (o : Outside) (signal : Signal N) (next : Strategy N) : Type 0 where
    pub once :
        (later : Outside) (price : Decimal) (now : DateTime)
        → time_stop_if_due N later price now next ≡ (none, next)
    pub locked :
        (later : Outside) (now : DateTime) (cooldown_hours : ℕ)
        → entry_locked N later now cooldown_hours next ≡ (
            if ltb now (o.utcnow + hours cooldown_hours)
            then (true, next)
            else (false, record next { state = new_state N later }))
    pub resolved :
        (later : Outside) (resolved_at now : DateTime) (cooldown_hours : ℕ)
        → let resolved = on_signal_resolved N signal.signal_id resolved_at next in
          entry_locked N later now cooldown_hours resolved ≡ (
            if ltb now (resolved_at + hours cooldown_hours)
            then (true, resolved)
            else (false, record resolved { state = new_state N later }))

  expired-IsStopped :
      (o : Outside) (signal : Signal N) (next : Strategy N)
      → next.state.state ≡ expired
      → next.state.entered_state_at ≡ o.utcnow
      → IsLast signal next
      → IsStopped o signal next
  unfolding time_stop_if_due entry_locked
  expired-IsStopped o signal next ended since last = record {
    once = λ later price now. rw ended refl;
    locked = λ later now cooldown_hours. rw (ended, since) refl;
    resolved = λ later resolved_at now cooldown_hours.
        (on_signal_resolved-entry_locked later signal next resolved_at now cooldown_hours last).1;
  }

  time_stop_if_due-expired :
      (o : Outside) (price : Decimal) (now : DateTime) (s : Strategy N) (signal : Signal N)
      → (time_stop_if_due N o price now s).0 ≡ some signal
      → let next = (time_stop_if_due N o price now s).1 in
        (next.state.state ≡ expired) × (next.state.entered_state_at ≡ o.utcnow) × IsLast signal next
  unfolding time_stop_if_due make_signal set_state
  time_stop_if_due-expired o price now s signal given =
      elim (Bool-cases (is_in_trade s.state.state)) [
        | inr out ↦ absurd (ground (arith, out))
        | inl in_trade ↦
            elim (Bool-cases (ltb now (s.state.entered_state_at + hours s.max_hold_hours))) [
              | inl early ↦ absurd (ground (arith, in_trade, early))
              | inr late ↦
                  let stopped =
                    set_state N o expired (("time_stop_hours", int s.max_hold_hours) ∷ []) s in
                  let same = some-injective _ _ (rw (in_trade, late) at given) in
                  rw (in_trade, late, same_state-expired s.state.state in_trade)
                    (
                      refl,
                      refl,
                      lookup-insert_self "last_signal_id" _ stopped.state.context
                          ∙ ap (λ (x : Signal N). some (text x.signal_id)) same,
                    )
            ]
      ]

  -- When the time stop gives a signal, the strategy is not stopped a second time; it is locked for a
  -- cooldown from the stop on, and then idle with an empty context; and when that signal is resolved,
  -- it is locked for a cooldown from the resolution on.
  pub time_stop_if_due-IsStopped :
      (o : Outside) (price : Decimal) (now : DateTime) (s : Strategy N) (signal : Signal N)
      → (time_stop_if_due N o price now s).0 ≡ some signal
      → IsStopped o signal (time_stop_if_due N o price now s).1
  time_stop_if_due-IsStopped o price now s signal given =
      let (ended, since, last) = time_stop_if_due-expired o price now s signal given in
      expired-IsStopped o signal (time_stop_if_due N o price now s).1 ended since last

  -- The CVD of a strategy always has a value.
  pub cvd_of_strategy-some :
      IsOrdered N
      → (s : Strategy N) (store : Store N) (interval : String) (lookback : ℕ) → 0 < lookback
      → (r : CvdResult N) × (cvd_of_strategy N s store interval lookback ≡ some r)
  unfolding cvd_of_strategy
  cvd_of_strategy-some order s store interval lookback pos =
      calculate_cvd_proxy-some N order (closed_recent N s store s.symbol interval (lookback + 5))
        lookback pos
