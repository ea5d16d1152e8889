-- ===== src/Backtest/Engine/Exits.antt =====
-- Where a trade ends: the first bar whose prices call for an exit, or the last bar it may hold.
use protocol_monitor.Common.{
  ℕ, zero, suc, ◌+◌, ◌-◌, ◌≤◌, ◌<◌, ◌≡◌, refl, Option, none, some, List, arith, length,
  get_elem?-total, Option-cases, inl, inr, ◌⊎◌, Result, ok, err, ◌>>=◌,
}
use native.Mathlib.Decide.{dec_lt}
use protocol_monitor.Numbers.{Numbers}
use protocol_monitor.Market.Kline.{Kline}
use protocol_monitor.Backtest.Engine.{
  Fault, item, EntryIntent, BacktestConfig, Exit, bar_exit, scan, final_index, find_exit, run_out,
  or_else, end_of_data, time_stop,
}

pub item-total : {A : Type 0} (xs : List A) (i : ℕ) → i < length xs → (a : A) × (item xs i ≡ ok a)
item-total xs i h = let (a, e) = get_elem?-total i xs h in (a, rw (e, item))

module _ (N : Numbers) (config : BacktestConfig N) (intent : EntryIntent N)
    (bars : List (Kline N)) where
  -- No bar from `lo` up to `hi` calls for an exit.
  abbrev pub Holds : ℕ → ℕ → Type 0
  Holds lo hi =
      (j : ℕ)
      → lo ≤ j
      → j < hi
      → (bar : Kline N) × (item bars j ≡ ok bar) × (bar_exit N config intent bar ≡ none)

  -- The bar at `e.index` calls for the exit `e`.
  abbrev pub ExitsAt : Exit N → Type 0
  ExitsAt e =
      (bar : Kline N) × (item bars e.index ≡ ok bar)
      × (bar_exit N config intent bar ≡ some (e.raw, e.reason))

  abbrev Scanned : ℕ → ℕ → Result Fault (Option (Exit N)) → Type 0
  Scanned lo hi (ok none) = Holds lo hi
  Scanned lo hi (ok (some e)) = (lo ≤ e.index) × (e.index < hi) × Holds lo e.index × ExitsAt e
  Scanned lo hi (err _) = ⊥

  Holds-cons :
      (lo hi : ℕ) (bar : Kline N)
      → item bars lo ≡ ok bar
      → bar_exit N config intent bar ≡ none
      → Holds (suc lo) hi
      → Holds lo hi
  Holds-cons lo hi bar at stays rest j above below = elim (dec_lt lo j) [
    | yes later ↦ rest j later below
    | no first ↦ let same : lo ≡ j = omega arith in (bar, rw (← same) at, stays)
  ]

  Scanned-cons :
      (lo hi : ℕ) (bar : Kline N) (r : Result Fault (Option (Exit N)))
      → item bars lo ≡ ok bar
      → bar_exit N config intent bar ≡ none
      → Scanned (suc lo) hi r
      → Scanned lo hi r
  Scanned-cons lo hi bar (ok none) at stays h = Holds-cons lo hi bar at stays h
  Scanned-cons lo hi bar (ok (some e)) at stays (a, b, holds, exits) =
      (omega arith, b, Holds-cons lo e.index bar at stays holds, exits)
  Scanned-cons lo hi bar (err _) at stays h = h

  scan-Scanned :
      (rounds lo : ℕ)
      → lo + rounds ≤ length bars
      → Scanned lo (lo + rounds) (scan N config intent bars rounds lo)
  unfolding scan
  scan-Scanned zero lo room = λ j above below. absurd (omega arith)
  scan-Scanned (suc rounds) lo room =
      let (bar, at) = item-total bars lo (omega arith) in
      elim (Option-cases (bar_exit N config intent bar)) [
        | inl stays ↦
            let next : suc lo + rounds ≡ lo + suc rounds = omega arith in
            rw (at, ◌>>=◌, stays)
              (Scanned-cons lo (lo + suc rounds) bar (scan N config intent bars rounds (suc lo)) at
                stays (rw next at (scan-Scanned rounds (suc lo) (omega arith))))
        | inr ((raw, why), e) ↦
            rw (at, ◌>>=◌, e)
              (omega arith, omega arith, (λ j above below. absurd (omega arith)), (bar, at, e))
      ]

  pub final_index_bounds :
      (entry : ℕ)
      → entry < length bars
      → (entry ≤ final_index N intent bars entry) × (final_index N intent bars entry < length bars)
  unfolding final_index
  final_index_bounds entry h = ground arith

  -- The trade is held to the close of the last bar that it may see, and no bar up to that one calls
  -- for an exit.
  pub record RunsOut (entry : ℕ) (e : Exit N) : Type 0 where
    pub at_final : e.index ≡ final_index N intent bars entry
    pub held : Holds entry (suc e.index)
    pub raw : (last : Kline N) → item bars e.index ≡ ok last → e.raw ≡ N.float last.close
    pub why :
        ((e.reason ≡ end_of_data) × (suc e.index ≡ length bars))
        ⊎ ((e.reason ≡ time_stop) × (suc e.index < length bars))

  abbrev pub Exits : ℕ → Exit N → Type 0
  Exits entry e =
      (entry ≤ e.index)
      × (e.index ≤ final_index N intent bars entry)
      × Holds entry e.index
      × (ExitsAt e ⊎ RunsOut entry e)

  run_out-RunsOut :
      (entry : ℕ) (last : Kline N)
      → entry < length bars
      → item bars (final_index N intent bars entry) ≡ ok last
      → Holds entry (suc (final_index N intent bars entry))
      → RunsOut entry (run_out N bars (final_index N intent bars entry) last)
  unfolding run_out
  run_out-RunsOut entry last room at held =
      let bounds = final_index_bounds entry room in
      record { at_final = refl; held = held; raw = λ other at'. cc; why = ground (arith, bounds) }

  or_else-Exits :
      (entry : ℕ) (last : Kline N) (found : Option (Exit N))
      → entry < length bars
      → item bars (final_index N intent bars entry) ≡ ok last
      → Scanned entry (suc (final_index N intent bars entry)) (ok found)
      → Exits entry (or_else N found (run_out N bars (final_index N intent bars entry) last))
  unfolding run_out
  or_else-Exits entry last none room at held =
      let (low, high) = final_index_bounds entry room in
      (
        low,
        omega arith,
        (λ j above below. held j above (omega arith)),
        inr (unfold run_out in run_out-RunsOut entry last room at held),
      )
  or_else-Exits entry last (some e) room at (low, high, held, exits) =
      (low, omega arith, held, inl exits)

  Scanned-ok :
      (lo hi : ℕ) (r : Result Fault (Option (Exit N)))
      → Scanned lo hi r
      → (found : Option (Exit N)) × (r ≡ ok found) × Scanned lo hi (ok found)
  Scanned-ok lo hi (ok found) h = (found, refl, h)
  Scanned-ok lo hi (err _) h = absurd h

  -- A trade that is entered at a bar of the data has an exit, which lies between the entry and the
  -- last bar that it may hold. No bar before it calls for an exit; the bar of the exit does, or else
  -- it is the last bar, at its close, and the reason says whether the data or the time ran out.
  pub find_exit-Exits :
      (entry : ℕ)
      → entry < length bars
      → (e : Exit N) × (find_exit N config intent bars entry ≡ ok e) × Exits entry e
  unfolding find_exit
  find_exit-Exits entry room =
      let final = final_index N intent bars entry in
      let (low, high) = final_index_bounds entry room in
      let (last, at) = item-total bars final high in
      let all : entry + (final + 1 - entry) ≡ suc final = omega arith in
      let scanned : Scanned entry (suc final)
          (scan N config intent bars (final + 1 - entry) entry) =
        rw all at (scan-Scanned (final + 1 - entry) entry (omega (arith, all))) in
      let (found, ran, spec) = Scanned-ok entry (suc final) _ scanned in
      (
        or_else N found (run_out N bars final last),
        rw (at, ◌>>=◌, ran),
        or_else-Exits entry last found room at spec,
      )
