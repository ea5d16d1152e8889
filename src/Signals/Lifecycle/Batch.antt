-- ===== src/Signals/Lifecycle/Batch.antt =====
-- One closed candle over the whole table: the loop reads the manageable rows once and updates them
-- one by one, which is the same as one independent transition of each row.
use mathlib.Core.List.{append_assoc}
use protocol_monitor.Common.{
  ℕ, ◌≡◌, refl, ◌∙◌, String, Bool, true, false, not, ◌&&◌, Option, none, some, List, [], ◌∷◌, ◌++◌,
  map, keep, str_eq_sym, str_eq_self, arith, leb, if◌then◌else◌, Bool-cases, Option-cases, inl, inr,
}
use protocol_monitor.Numbers.{Numbers}
use protocol_monitor.Market.Kline.{Kline, DateTime}
use protocol_monitor.Signals.Models.{SignalRow}
use protocol_monitor.Storage.Signals.{
  Changes, Table, apply_changes, is_manageable, is_wanted, get_manageable_signals,
  update_signal_lifecycle,
}
use protocol_monitor.Storage.Signals.Laws.{
  Lacks, HasUniqueIds, Lacks-append, update-Lacks, update-append,
}
use protocol_monitor.Signals.Lifecycle.{
  Levels, levels, floated, decide, write, advance_all, on_closed_kline,
}
use protocol_monitor.Signals.Lifecycle.Transitions.{updated}

module _ (N : Numbers) (max_hold_hours : ℕ) (candle : Kline N) (now : DateTime) where
  -- The candle concerns the row: a manageable row of its market, created before its close.
  abbrev pub concerns : SignalRow N → Bool
  concerns r =
      is_wanted N (some candle.exchange) (some candle.symbol) r
      && not (leb candle.close_time r.created_at)

  abbrev pub outcome : SignalRow N → Option Changes × Bool
  outcome r = elim (levels N r) [
    | none ↦ (none, false)
    | some l ↦ decide N max_hold_hours r l candle now
  ]

  -- The transition of one row on its own.
  abbrev pub transition : SignalRow N → SignalRow N
  transition r = if concerns r then updated N (outcome r).0 r else r

  -- The ids of the rows that are resolved, in the order of the table.
  abbrev pub resolved_ids : Table N → List String
  resolved_ids [] = []
  resolved_ids (r ∷ rs) =
      if concerns r && (outcome r).1 then r.signal_id ∷ resolved_ids rs else resolved_ids rs

  levels-some :
      (r : SignalRow N)
      → is_wanted N (some candle.exchange) (some candle.symbol) r ≡ true
      → (l : Levels N) × (levels N r ≡ some l)
  unfolding is_manageable
  levels-some r h = elim (Option-cases r.entry) [
    | inl missing ↦ absurd (ground arith)
    | inr (entry, e) ↦ elim (Option-cases r.sl) [
      | inl missing ↦ absurd (ground arith)
      | inr (sl, f) ↦ (
        record {
          entry = N.float entry;
          stop = N.float sl;
          tp1 = floated N r.tp1;
          tp2 = floated N r.tp2;
        },
        rw (e, f),
      )
    ]
  ]

  updated-id : (c : Option Changes) (r : SignalRow N) → (updated N c r).signal_id ≡ r.signal_id
  unfolding apply_changes
  updated-id none r = refl
  updated-id (some c) r = refl

  -- Updating the row between `done` and `rest` changes that row alone.
  write-middle :
      (done : Table N) (r : SignalRow N) (rest : Table N) (c : Option Changes)
      → Lacks N r.signal_id done
      → Lacks N r.signal_id rest
      → write N r.signal_id c (done ++ (r ∷ rest)) ≡ done ++ (updated N c r ∷ rest)
  unfolding update_signal_lifecycle
  write-middle done r rest none before after = refl
  write-middle done r rest (some c) before after =
      update-append N r.signal_id c done (r ∷ rest)
      ∙ rw
          (
            update-Lacks N r.signal_id c done before,
            str_eq_self r.signal_id,
            update-Lacks N r.signal_id c rest after,
          )
          refl

  -- No row of `done` has the id of a row of the list.
  abbrev Apart : Table N → Table N → Type 0
  Apart done [] = Unit
  Apart done (r ∷ rs) = Lacks N r.signal_id done × Apart done rs

  Apart-snoc :
      (done : Table N) (q : SignalRow N) (rs : Table N)
      → Lacks N q.signal_id rs
      → Apart done rs
      → Apart (done ++ (q ∷ [])) rs
  Apart-snoc done q [] h a = tt
  Apart-snoc done q (r ∷ rs) h (fresh, a) = (
    Lacks-append N r.signal_id done (q ∷ []) fresh
        (ground (arith, str_eq_sym q.signal_id r.signal_id)),
    Apart-snoc done q rs (ground arith) a,
  )

  Apart-nil : (rs : Table N) → Apart [] rs
  Apart-nil [] = tt
  Apart-nil (r ∷ rs) = (refl, Apart-nil rs)

  advance_all-transition :
      (rest done : Table N)
      → HasUniqueIds N rest
      → Apart done rest
      → advance_all N max_hold_hours candle now
          (keep (is_wanted N (some candle.exchange) (some candle.symbol)) rest)
          (done ++ rest)
        ≡ some (resolved_ids rest, done ++ map transition rest)
  unfolding advance_all
  advance_all-transition [] done u a = refl
  advance_all-transition (r ∷ rest) done (fresh, u) (before, a) =
      let step = λ (x : SignalRow N) (e : x.signal_id ≡ r.signal_id).
        rw (append_assoc done (x ∷ []) rest, append_assoc done (x ∷ []) (map transition rest)) at
          (advance_all-transition rest (done ++ (x ∷ [])) u
            (Apart-snoc done x rest (rw e fresh) a)) in
      elim (Bool-cases (is_wanted N (some candle.exchange) (some candle.symbol) r)) [
        | inl wanted ↦ elim (Bool-cases (leb candle.close_time r.created_at)) [
          | inl late ↦ rw (wanted, late) (step r refl)
          | inr in_time ↦
              let (l, e) = levels-some r wanted in
              let (changes, resolved) = decide N max_hold_hours r l candle now in
              let got : outcome r ≡ decide N max_hold_hours r l candle now = rw (e, outcome) in
              rw (
                wanted,
                in_time,
                e,
                got,
                write-middle done r rest changes before fresh,
                step (updated N changes r) (updated-id changes r),
              )
        ]
        | inr other ↦ rw other (step r refl)
      ]

module _ (N : Numbers) (max_hold_hours : ℕ) (candle : Kline N) where
  -- `now`, or else the close of the candle.
  abbrev pub at : Option DateTime → DateTime
  at none = candle.close_time
  at (some t) = t

  -- With unique ids, a closed candle never fails: it makes the transition of every row that concerns
  -- it, from the state before the candle, leaves all other rows as they are, and returns the ids of
  -- the rows that it resolves. A candle that is not closed changes nothing.
  pub on_closed_kline-transition :
      (now : Option DateTime) (table : Table N)
      → HasUniqueIds N table
      → on_closed_kline N max_hold_hours candle now table ≡ (
          if candle.is_closed
          then some (
            resolved_ids N max_hold_hours candle (at now) table,
            map (transition N max_hold_hours candle (at now)) table,
          )
          else some ([], table))
  unfolding on_closed_kline get_manageable_signals
  on_closed_kline-transition none table u = ground (
    arith,
    advance_all-transition N max_hold_hours candle candle.close_time table [] u
        (Apart-nil N max_hold_hours candle candle.close_time table),
  )
  on_closed_kline-transition (some t) table u = ground (
    arith,
    advance_all-transition N max_hold_hours candle t table [] u
        (Apart-nil N max_hold_hours candle t table),
  )
