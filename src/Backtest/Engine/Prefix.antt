-- ===== src/Backtest/Engine/Prefix.antt =====
-- No look-ahead: bars after the exit of a trade do not change it.
use protocol_monitor.Common.{
  ℕ, zero, suc, ◌+◌, ◌-◌, ◌≤◌, ◌<◌, ◌≡◌, ◌≢◌, refl, true, Option, none, some, List, [], ◌++◌, arith,
  length, length-append, get_elem?-append, Bool-cases, Option-cases, inl, inr, Result, ok, err,
  ◌>>=◌, ◌∙◌,
}
use protocol_monitor.Numbers.{Numbers}
use protocol_monitor.Market.Kline.{Kline}
use protocol_monitor.Backtest.Engine.{
  Fault, item, EntryIntent, FundingRate, BacktestConfig, BacktestTrade, Exit, find_exit, is_refused,
  run_out, bar_exit, slipped, close_trade, simulate_trade, scan, final_index, end_of_data,
}
use protocol_monitor.Backtest.Engine.Exits.{item-total, final_index_bounds, find_exit-Exits}

pub item-append :
    {A : Type 0} (xs ys : List A) (i : ℕ) → i < length xs → item (xs ++ ys) i ≡ item xs i
item-append xs ys i h = rw (get_elem?-append i xs ys h, item)

module _ (N : Numbers) (config : BacktestConfig N) (intent : EntryIntent N)
    (bars later : List (Kline N)) where
  scan-append :
      (rounds lo : ℕ)
      → lo + rounds ≤ length bars
      → scan N config intent (bars ++ later) rounds lo ≡ scan N config intent bars rounds lo
  unfolding scan
  scan-append zero lo room = refl
  scan-append (suc rounds) lo room =
      let (bar, at) = item-total bars lo (omega arith) in
      let at' : item (bars ++ later) lo ≡ ok bar = item-append bars later lo (omega arith) ∙ at in
      elim (Option-cases (bar_exit N config intent bar)) [
        | inl stays ↦ rw (at, at', ◌>>=◌, stays) (scan-append rounds (suc lo) (omega arith))
        | inr ((raw, why), e) ↦ rw (at, at', ◌>>=◌, e)
      ]

  scan-add :
      (rounds more lo : ℕ) {e : Exit N}
      → scan N config intent bars rounds lo ≡ ok (some e)
      → scan N config intent bars (rounds + more) lo ≡ ok (some e)
  unfolding scan
  scan-add zero more lo h = cc
  scan-add (suc rounds) more lo {e} h =
      let more_rounds : suc rounds + more ≡ suc (rounds + more) = omega arith in
      rw more_rounds (ground (arith, scan-add rounds more (suc lo) {e = e}))

module _ (N : Numbers) (config : BacktestConfig N) (intent : EntryIntent N)
    (bars later : List (Kline N)) where
  final_index-append :
      (entry : ℕ)
      → entry < length bars
      → (final_index N intent bars entry ≤ final_index N intent (bars ++ later) entry)
        × (suc (final_index N intent bars entry) < length bars
            → final_index N intent (bars ++ later) entry ≡ final_index N intent bars entry)
  unfolding final_index
  final_index-append entry room = ground (arith, length-append bars later)

  -- The scan of the longer data finds the same exit.
  scan_found :
      (entry : ℕ) {e : Exit N}
      → entry < length bars
      → scan N config intent bars (final_index N intent bars entry + 1 - entry) entry ≡ ok (some e)
      → scan N config intent
          (bars ++ later)
          (final_index N intent (bars ++ later) entry + 1 - entry)
          entry
        ≡ ok (some e)
  scan_found entry room h =
      let old = final_index N intent bars entry + 1 - entry in
      let new = final_index N intent (bars ++ later) entry + 1 - entry in
      let (low, high) = final_index_bounds N config intent bars entry room in
      let grown : old + (new - old) ≡ new = omega (arith, final_index-append entry room) in
      let found : scan N config intent (bars ++ later) old entry ≡ ok (some _) =
        scan-append N config intent bars later old entry (omega arith) ∙ h in
      rw grown at (scan-add N config intent (bars ++ later) [] old (new - old) entry found)

  run_out-append :
      (entry : ℕ) (last : Kline N)
      → entry < length bars
      → (run_out N bars (final_index N intent bars entry) last).reason ≢ end_of_data
      → (suc (final_index N intent bars entry) < length bars)
        × (run_out N (bars ++ later) (final_index N intent bars entry) last
            ≡ run_out N bars (final_index N intent bars entry) last)
  unfolding run_out
  run_out-append entry last room closed =
      ground (arith, length-append bars later, final_index_bounds N config intent bars entry room)

  find_exit_from :
      (entry : ℕ) {e : Exit N} (last : Kline N) (r : Result Fault (Option (Exit N)))
      → entry < length bars
      → e.reason ≢ end_of_data
      → item bars (final_index N intent bars entry) ≡ ok last
      → scan N config intent bars (final_index N intent bars entry + 1 - entry) entry ≡ r
      → find_exit N config intent bars entry ≡ ok e
      → find_exit N config intent (bars ++ later) entry ≡ ok e
  unfolding find_exit
  find_exit_from entry last (ok (some f)) room closed at s h =
      let (low, high) =
        final_index_bounds N config intent (bars ++ later) entry
          (omega (arith, length-append bars later)) in
      let (last', at') =
        item-total (bars ++ later) (final_index N intent (bars ++ later) entry) high in
      let same : ok f ≡ ok _ = rw (at, ◌>>=◌, s) at h in
      rw (at', ◌>>=◌, scan_found entry room s) same
  find_exit_from entry {e} last (ok none) room closed at s h =
      let final = final_index N intent bars entry in
      let (low, high) = final_index_bounds N config intent bars entry room in
      let ran : ok (run_out N bars final last) ≡ ok e = rw (at, ◌>>=◌, s) at h in
      let (short, same) = run_out-append entry last room (λ ends. closed (cc)) in
      let fixed : final_index N intent (bars ++ later) entry ≡ final =
        (final_index-append entry room).1 short in
      let at' : item (bars ++ later) final ≡ ok last = item-append bars later final high ∙ at in
      let s' : scan N config intent (bars ++ later) (final + 1 - entry) entry ≡ ok none =
        scan-append N config intent bars later (final + 1 - entry) entry (omega arith) ∙ s in
      rw (fixed, at', ◌>>=◌, s', same) ran
  find_exit_from entry last (err x) room closed at s h =
      let bad : err x ≡ ok _ = rw (at, ◌>>=◌, s) at h in cc

  find_exit-append :
      (entry : ℕ) {e : Exit N}
      → entry < length bars
      → e.reason ≢ end_of_data
      → find_exit N config intent bars entry ≡ ok e
      → find_exit N config intent (bars ++ later) entry ≡ ok e
  find_exit-append entry room closed h =
      let (low, high) = final_index_bounds N config intent bars entry room in
      let (last, at) = item-total bars (final_index N intent bars entry) high in
      find_exit_from entry last _ room closed at refl h

  abbrev Answer : (r s : Result Fault (Option (BacktestTrade N) × ℕ)) → Type 0
  Answer r s = r ≡ s

  -- If a trade ends for another reason than the end of the data, the simulation over the data with
  -- any later bars appended gives the same trade and the same exit bar.
  pub simulate_trade-append :
      (points : List (FundingRate N)) (signal entry : ℕ) {t : BacktestTrade N} {exit : ℕ}
      → signal < length bars
      → entry < length bars
      → t.exit_reason ≢ end_of_data
      → simulate_trade N config points bars signal entry intent ≡ ok (some t, exit)
      → simulate_trade N config points (bars ++ later) signal entry intent ≡ ok (some t, exit)
  unfolding simulate_trade close_trade
  simulate_trade-append points signal entry {t} {exit} before room closed h =
      let (a, at_entry) = item-total bars entry room in
      let (s, at_signal) = item-total bars signal before in
      let price = slipped N config (N.float a.open_price) intent.direction true in
      let (e, found, exits) = find_exit-Exits N config intent bars entry room in
      let (low, high) = final_index_bounds N config intent bars entry room in
      let (b, at_exit) = item-total bars e.index (omega (arith, exits.1)) in
      elim (Bool-cases (is_refused N intent price)) [
        | inl refused ↦
            let bad : Answer (ok (none, entry)) (ok (some t, exit)) =
              rw (at_entry, ◌>>=◌, refused) at h in
            absurd (cc)
        | inr taken ↦
            let same : Answer
                (ok (some (close_trade N config intent points s a b price e), e.index))
                (ok (some t, exit)) =
              rw (at_entry, ◌>>=◌, taken, found, at_exit, at_signal) at h in
            let kept : t.exit_reason ≡ e.reason = cc in
            let open_end : e.reason ≢ end_of_data = λ ends. closed (kept ∙ ends) in
            rw
              (
                item-append bars later entry room ∙ at_entry,
                ◌>>=◌,
                taken,
                find_exit-append entry room open_end found,
                item-append bars later e.index (omega (arith, exits.1)) ∙ at_exit,
                item-append bars later signal before ∙ at_signal,
              )
              same
      ]
