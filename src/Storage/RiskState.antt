-- ===== src/Storage/RiskState.antt =====
-- `SignalRepository.get_portfolio_risk_state` and `_paper_result_r`: equity, drawdown and losses
-- rebuilt from the results of the paper trades. Where the database puts a missing `resolved_at` in
-- its order is a parameter.
pub mod Streak
mod Tests
use protocol_monitor.Common.{
  ℕ, suc, ◌+◌, ◌-◌, ◌*◌, ◌/◌, ◌%◌, String, Bool, true, false, not, ◌&&◌, ◌||◌, Option, none, some,
  List, [], ◌∷◌, keep, str_eq, if◌then◌else◌, ltb, leb, ◌==◌,
}
use protocol_monitor.Numbers.{Numbers, nought, fmax, truthy}
use protocol_monitor.Market.Kline.{DateTime, hours}
use protocol_monitor.Signals.Models.{Signal, SignalRow}
use protocol_monitor.Storage.Signals.{Table}

module _ (N : Numbers) where
  open N use {Float, Decimal, float, lit, add, sub, mul, div, neg, lt, dec_lit, dec_lt}

  -- `bool(d)` of a decimal.
  abbrev pub is_nonzero : Decimal → Bool
  is_nonzero d = dec_lt (dec_lit 0 0) d || dec_lt d (dec_lit 0 0)

  -- `float(d or 0.0)`
  abbrev pub float_or_zero : Option Decimal → Float
  float_or_zero none = nought N
  float_or_zero (some d) = if is_nonzero d then float d else nought N

  -- `tp2 or tp1`
  abbrev pub first_given : Option Decimal → Option Decimal → Option Decimal
  first_given none other = other
  first_given (some d) other = if is_nonzero d then some d else other

  -- `_paper_result_r` of a win.
  pub win_r : SignalRow N → Option Float
  win_r r =
      let entry = float_or_zero r.entry in
      let stop = float_or_zero r.sl in
      let target = float_or_zero (first_given r.tp2 r.tp1) in
      let is_long = str_eq r.direction "LONG" in
      let risk = if is_long then sub entry stop else sub stop entry in
      let reward = if is_long then sub target entry else sub entry target in
      if lt (nought N) risk then some (div reward risk) else none

  -- `_paper_result_r` of a row with a result.
  pub result_r_of : SignalRow N → String → Option Float
  result_r_of r result =
      if str_eq result "LOSS_SL"
      then some (neg (lit 1 0))
      else if str_eq result "BREAKEVEN_AFTER_TP1"
          || (str_eq result "TIME_STOP" || str_eq result "TP1_REACHED")
      then some (nought N)
      else if not (str_eq result "WIN_TP2")
      then none
      else win_r r

  -- `_paper_result_r`
  pub paper_result_r : SignalRow N → Option Float
  paper_result_r r = elim r.result [ none ↦ none | some result ↦ result_r_of r result ]

  pub has_result : SignalRow N → Bool
  has_result r = elim r.result [ none ↦ false | some result ↦ true ]

  -- The order of two values of a nullable column.
  abbrev pub before : Bool → Option DateTime → Option DateTime → Bool
  before nulls_first none none = false
  before nulls_first none (some u) = nulls_first
  before nulls_first (some t) none = not nulls_first
  before nulls_first (some t) (some u) = ltb t u

  -- The row `r` stands after the row `q` by `resolved_at`, then `created_at`.
  abbrev pub is_later : Bool → SignalRow N → SignalRow N → Bool
  is_later nulls_first r q =
      before nulls_first q.resolved_at r.resolved_at
      || (not (before nulls_first r.resolved_at q.resolved_at) && ltb q.created_at r.created_at)

  pub insert_resolved : Bool → SignalRow N → Table N → Table N
  insert_resolved nulls_first r [] = r ∷ []
  insert_resolved nulls_first r (q ∷ qs) =
      if is_later nulls_first r q then q ∷ insert_resolved nulls_first r qs else r ∷ q ∷ qs

  -- `ORDER BY resolved_at, created_at`
  unfoldable pub by_resolution : Bool → Table N → Table N
  by_resolution nulls_first [] = []
  by_resolution nulls_first (r ∷ rs) = insert_resolved nulls_first r (by_resolution nulls_first rs)

  -- The variables of the loop.
  pub record Equity : Type 0 where
    pub equity : Float
    pub peak : Float
    pub drawdown : Float
    pub daily_r : Float
    pub consecutive_losses : ℕ

  abbrev pub initial_equity : Equity
  initial_equity = record {
    equity = lit 1 0;
    peak = lit 1 0;
    drawdown = nought N;
    daily_r = nought N;
    consecutive_losses = 0;
  }

  -- `resolved_at or created_at`
  abbrev pub time_of : SignalRow N → DateTime
  time_of r = elim r.resolved_at [ none ↦ r.created_at | some t ↦ t ]

  -- `float(position_r or 0.0)`
  abbrev pub size_of : SignalRow N → Float
  size_of r = if truthy N r.position_r then r.position_r else nought N

  -- Lines 198 to 201.
  abbrev pub count_loss : Float → ℕ → ℕ
  count_loss result_r losses =
      if lt result_r (nought N) then suc losses else if lt (nought N) result_r then 0 else losses

  -- The body of the loop, lines 191 to 201.
  pub settle : DateTime → Float → SignalRow N → Float → Equity → Equity
  settle day_start risk_pct r result_r e =
      let pnl_fraction = div (mul (mul result_r (size_of r)) risk_pct) (lit 100 0) in
      let equity = mul e.equity (add (lit 1 0) pnl_fraction) in
      let peak = fmax N e.peak equity in
      record {
        equity = equity;
        peak = peak;
        drawdown =
            fmax N e.drawdown (if truthy N peak then div (sub peak equity) peak else nought N);
        daily_r =
            if leb day_start (time_of r)
            then add e.daily_r (mul result_r (size_of r))
            else e.daily_r;
        consecutive_losses = count_loss result_r e.consecutive_losses;
      }

  unfoldable pub settle_all : DateTime → Float → Table N → Equity → Equity
  settle_all day_start risk_pct [] e = e
  settle_all day_start risk_pct (r ∷ rs) e = elim (paper_result_r r) [
    | none ↦ settle_all day_start risk_pct rs e
    | some result_r ↦ settle_all day_start risk_pct rs (settle day_start risk_pct r result_r e)
  ]

  -- What is returned, as the record that the router makes of it.
  pub record RiskState : Type 0 where
    pub daily_realized_r : Float
    pub current_drawdown_pct : Float
    pub consecutive_losses : ℕ

  abbrev pub start_of_day : DateTime → DateTime
  start_of_day now = now - now % hours 24

  -- `get_portfolio_risk_state`
  unfoldable pub get_portfolio_risk_state : Bool → DateTime → Float → Table N → RiskState
  get_portfolio_risk_state nulls_first now risk_pct table =
      let final =
        settle_all (start_of_day now) risk_pct (by_resolution nulls_first (keep has_result table))
          initial_equity in
      record {
        daily_realized_r = final.daily_r;
        current_drawdown_pct = mul final.drawdown (lit 100 0);
        consecutive_losses = final.consecutive_losses;
      }
