-- ===== src/Storage/RiskState/Streak.antt =====
-- What the rebuilt risk state says of the results.

use protocol_monitor.Common.{
  ℕ, suc, ◌≡◌, refl, ap, Bool, true, none, some, List, [], ◌∷◌, keep, if◌then◌else◌, Option-cases,
  inl, inr,
}
use protocol_monitor.Numbers.{Numbers, nought}
use protocol_monitor.Numbers.Laws.{
  IsOrdered, IsRounded, le_refl, le_of_lt, le-fmax_left, le-fmax_right,
}
use protocol_monitor.Market.Kline.{DateTime}
use protocol_monitor.Signals.Models.{SignalRow}
use protocol_monitor.Storage.Signals.{Table}
use protocol_monitor.Storage.RiskState.{
  paper_result_r, has_result, by_resolution, Equity, initial_equity, count_loss, settle, settle_all,
  start_of_day, get_portfolio_risk_state,
}

module _ (N : Numbers) where
  open N use {Float, lt, le}

  -- The losses since the last win, from the newest result back; a result of zero counts as neither.
  abbrev pub losing_streak : List Float → ℕ
  losing_streak [] = 0
  losing_streak (r ∷ rs) =
      if lt r (nought N)
      then suc (losing_streak rs)
      else if lt (nought N) r
      then 0
      else losing_streak rs

  -- The results of the rows that have one, put in front of others, the newest first.
  abbrev pub newest_results : Table N → List Float → List Float
  newest_results [] earlier = earlier
  newest_results (r ∷ rs) earlier = elim (paper_result_r N r) [
    | none ↦ newest_results rs earlier
    | some result_r ↦ newest_results rs (result_r ∷ earlier)
  ]

  module _ (day_start : DateTime) (risk_pct : Float) where
    settle_all-none :
        (r : SignalRow N) (rs : Table N) (e : Equity N)
        → paper_result_r N r ≡ none
        → settle_all N day_start risk_pct (r ∷ rs) e ≡ settle_all N day_start risk_pct rs e
    unfolding settle_all
    settle_all-none r rs e h = rw (h, settle_all) refl

    settle_all-some :
        (r : SignalRow N) (rs : Table N) (e : Equity N) (x : Float)
        → paper_result_r N r ≡ some x
        → settle_all N day_start risk_pct (r ∷ rs) e
          ≡ settle_all N day_start risk_pct rs (settle N day_start risk_pct r x e)
    unfolding settle_all
    settle_all-some r rs e x h = rw (h, settle_all) refl

  settle_all-losing_streak :
      (day_start : DateTime) (risk_pct : Float) (rs : Table N) (e : Equity N) (earlier : List Float)
      → e.consecutive_losses ≡ losing_streak earlier
      → (settle_all N day_start risk_pct rs e).consecutive_losses
        ≡ losing_streak (newest_results rs earlier)
  unfolding settle_all settle
  settle_all-losing_streak day_start risk_pct [] e earlier h = h
  settle_all-losing_streak day_start risk_pct (r ∷ rs) e earlier h =
      elim (Option-cases (paper_result_r N r)) [
        | inl missing ↦
            rw (settle_all-none day_start risk_pct r rs e missing, missing, newest_results)
              (settle_all-losing_streak day_start risk_pct rs e earlier h)
        | inr (x, found) ↦
            rw (settle_all-some day_start risk_pct r rs e x found, found, newest_results)
              (settle_all-losing_streak day_start risk_pct rs (settle N day_start risk_pct r x e)
                (x ∷ earlier) (ap (count_loss N x) h))
      ]

  IsSound : Equity N → Type 0
  IsSound e = (le e.equity e.peak ≡ true) × (le (nought N) e.drawdown ≡ true)

  module _ (order : IsOrdered N) where
    settle_all-IsSound :
        (day_start : DateTime) (risk_pct : Float) (rs : Table N) (e : Equity N)
        → IsSound e
        → IsSound (settle_all N day_start risk_pct rs e)
    unfolding settle_all settle IsSound
    settle_all-IsSound day_start risk_pct [] e h = h
    settle_all-IsSound day_start risk_pct (r ∷ rs) e h = elim (Option-cases (paper_result_r N r)) [
      | inl missing ↦
          rw (settle_all-none day_start risk_pct r rs e missing)
            (settle_all-IsSound day_start risk_pct rs e h)
      | inr (x, found) ↦ rw (settle_all-some day_start risk_pct r rs e x found) (
          settle_all-IsSound day_start risk_pct rs (settle N day_start risk_pct r x e)
            (le-fmax_right N order _ _, order.le_trans _ _ _ h.1 (le-fmax_left N order _ _)))
    ]

    -- The count of consecutive losses is that of the results back from the newest to the last win,
    -- in the order in which the trades were resolved, and the drawdown is not negative.
    pub get_portfolio_risk_state-losing_streak :
        (nulls_first : Bool) (now : DateTime) (risk_pct : Float) (table : Table N)
        → IsRounded N
        → let state = get_portfolio_risk_state N nulls_first now risk_pct table in
          (state.consecutive_losses
            ≡ losing_streak
                (newest_results (by_resolution N nulls_first (keep (has_result N) table)) []))
          × (le (nought N) state.current_drawdown_pct ≡ true)
    unfolding get_portfolio_risk_state IsSound
    get_portfolio_risk_state-losing_streak nulls_first now risk_pct table laws =
        let rows = by_resolution N nulls_first (keep (has_result N) table) in
        let (low, sound) =
          settle_all-IsSound (start_of_day N now) risk_pct rows (initial_equity N)
            (le_refl N order _, le_refl N order _) in
        (
          settle_all-losing_streak (start_of_day N now) risk_pct rows (initial_equity N) [] refl,
          laws.mul_nonneg _ _ sound (le_of_lt N order _ _ (laws.lit_pos 99)),
        )
