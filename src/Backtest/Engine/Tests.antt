-- ===== src/Backtest/Engine/Tests.antt =====
-- Runs of the simulation over scaled integers, and its theorems at them.
use protocol_monitor.Common.{
  ℕ, ◌+◌, ◌*◌, ◌<◌, ◌≡◌, ◌↔◌, ◌⊎◌, refl, true, Option, none, some, List, [], ◌∷◌, ◌++◌, Result, ok,
  err, arith,
}
use protocol_monitor.Common.Int.{ℤ, pos, negsuc, ◌+ℤ◌, ◌-ℤ◌, ◌*ℤ◌, quot, neg_ℤ}
use protocol_monitor.Numbers.Fixed.{fixed, scale, fixed-IsOrdered}
use protocol_monitor.Market.Kline.{Kline, minutes}
use protocol_monitor.Backtest.Engine.{
  Fault, overflow, long, ExitReason, ambiguous_stop_first, EntryIntent, BacktestConfig,
  BacktestTrade, Exit, slipped, bar_hits, bar_exit, scan, final_index, run_out, find_exit,
  is_refused, close_trade, simulate_trade, sorted_intents, run_from, insert_intent, funding_r,
  funding_from,
}
use protocol_monitor.Backtest.Engine.Exits.{Exits, find_exit-Exits}
use protocol_monitor.Backtest.Engine.Fills.{
  untouched, no_better, bar_exit-none_iff, bar_exit-no_better,
}
use protocol_monitor.Backtest.Engine.Schedule.{Runs, Laid, run_from-Laid}
use protocol_monitor.Backtest.Engine.Prefix.{simulate_trade-append}
use protocol_monitor.Backtest.Engine.Report.{
  Statistics, BacktestResult, max_drawdown, compound_all, elapsed_days, result, run,
}
use protocol_monitor.Backtest.Engine.Report.Curve.{max_drawdown_bound, Overflows, Reports, run-Laid}

abbrev price : ℕ → ℤ
price n = pos (n * scale)

-- A five-minute bar: its number, open, high, low and close.
abbrev bar : ℕ → ℕ → ℕ → ℕ → ℕ → Kline fixed
bar i o h l c = record {
  exchange = "BINANCE";
  symbol = "ETHUSDT";
  interval = "5m";
  open_time = minutes (5 * i);
  close_time = minutes (5 * i + 5);
  open_price = price o;
  high = price h;
  low = price l;
  close = price c;
  volume = price 10;
  quote_volume = none;
  is_closed = true;
  taker_buy_volume = none;
}

abbrev free_config : BacktestConfig fixed
free_config = record {
  fee_bps_per_side = pos 0;
  slippage_bps_per_side = pos 0;
  starting_equity = price 1;
  stop_first_when_ambiguous = true;
}

abbrev buy : EntryIntent fixed
buy = record {
  direction = long;
  stop = price 90;
  target = price 120;
  reason = "test";
  risk_fraction = pos 25;
  max_hold_bars = none;
  minimum_rr = pos 0;
  strategy = "TEST";
}

-- A long trade from the second bar at 100; the fourth bar reaches both the stop and the target.
abbrev bars : List (Kline fixed)
bars = bar 0 99 101 98 100 ∷ bar 1 100 105 95 104 ∷ bar 2 104 110 96 100 ∷ bar 3 100 125 85 110 ∷ []

abbrev reason_of : Option (BacktestTrade fixed) → Option ExitReason
reason_of none = none
reason_of (some t) = some t.exit_reason

abbrev ran : Result Fault (Option (BacktestTrade fixed) × ℕ)
ran = simulate_trade fixed free_config [] bars 0 1 buy

abbrev reason_and_bar :
    Result Fault (Option (BacktestTrade fixed) × ℕ) → Option (Option ExitReason × ℕ)
reason_and_bar (ok (t, i)) = some (reason_of t, i)
reason_and_bar (err _) = none

stops_first : reason_and_bar ran ≡ some (some ambiguous_stop_first, 3)
unfolding simulate_trade slipped bar_hits bar_exit scan final_index run_out find_exit is_refused
    close_trade ◌+ℤ◌ ◌-ℤ◌ ◌*ℤ◌ quot neg_ℤ
stops_first = refl

find_exit-Exits_example :
    (e : Exit fixed) × (find_exit fixed free_config buy bars 1 ≡ ok e)
    × Exits fixed free_config buy bars 1 e
find_exit-Exits_example = find_exit-Exits fixed free_config buy bars 1 (omega arith)

bar_exit-none_iff_example :
    (bar_exit fixed free_config buy (bar 2 104 110 96 100) ≡ none)
    ↔ (untouched fixed fixed-IsOrdered long (price 96) (price 110) (price 90) (price 120) ≡ true)
bar_exit-none_iff_example =
    bar_exit-none_iff fixed fixed-IsOrdered free_config buy (bar 2 104 110 96 100) refl refl

bar_exit-no_better_example : no_better fixed fixed-IsOrdered long (price 90) (price 120) ≡ true
unfolding bar_exit bar_hits
bar_exit-no_better_example =
    bar_exit-no_better fixed fixed-IsOrdered free_config buy (bar 3 100 125 85 110) refl refl

intents : List (ℤ × EntryIntent fixed)
intents = (pos 2, buy) ∷ (negsuc 0, buy) ∷ (pos 0, buy) ∷ []

run_from-Laid_example : Runs fixed free_config [] bars intents 1
run_from-Laid_example = run_from-Laid fixed free_config [] bars intents 1

abbrev trade : BacktestTrade fixed
trade =
    close_trade fixed free_config buy [] (bar 0 99 101 98 100) (bar 1 100 105 95 104)
      (bar 3 100 125 85 110) (price 100)
      (record { index = 3; raw = price 90; reason = ambiguous_stop_first })

simulate_trade-append_example :
    simulate_trade fixed free_config [] (bars ++ (bar 4 110 130 100 120 ∷ [])) 0 1 buy
    ≡ ok (some trade, 3)
unfolding simulate_trade slipped bar_hits bar_exit scan final_index run_out find_exit is_refused
    close_trade ◌+ℤ◌ ◌-ℤ◌ ◌*ℤ◌ quot neg_ℤ
simulate_trade-append_example =
    simulate_trade-append fixed free_config buy bars (bar 4 110 130 100 120 ∷ []) [] 0 1
      (omega arith) (omega arith) (λ e. cc) refl

max_drawdown_bound_example :
    let drawdown = max_drawdown fixed (price 4 ∷ price 3 ∷ price 5 ∷ []) in
    (fixed.le (pos 0) drawdown ≡ true)
    × (true ≡ true → fixed.le (quot (pos 1 *ℤ pos scale) (pos 4)) drawdown ≡ true)
unfolding ◌-ℤ◌ ◌*ℤ◌ quot
max_drawdown_bound_example =
    max_drawdown_bound fixed fixed-IsOrdered (price 4 ∷ []) (price 3) (price 5 ∷ [])

abbrev statistics : Statistics fixed
statistics = record {
  mean = λ xs. pos 0;
  pstdev = λ xs. pos 0;
  sqrt = λ x. x;
  power = λ x y. some x;
  inf = price 1_000_000;
  of_int = price;
  ratio = λ m n. quot (pos (m * scale)) (pos n);
}

-- The same run where the growth to the power of the years overflows.
overflow_run :
    run fixed (record statistics { power = λ x y. none }) free_config bars intents [] ≡ err overflow
unfolding run run_from result sorted_intents simulate_trade slipped bar_hits bar_exit scan
    final_index run_out find_exit is_refused close_trade insert_intent funding_r funding_from
    intents compound_all elapsed_days ◌+ℤ◌ ◌-ℤ◌ ◌*ℤ◌ quot neg_ℤ
overflow_run = refl

run-Laid_example :
    (trades : List (BacktestTrade fixed)) × (occupied : ℕ) × Laid fixed free_config [] bars
      (sorted_intents fixed intents)
      1
      trades
      occupied
    × (occupied < 4)
    × (((r : BacktestResult fixed) × (run fixed statistics free_config bars intents [] ≡ ok r)
          × Reports fixed statistics free_config bars trades r
          × (¬ Overflows fixed statistics free_config
              (compound_all fixed (price 1) trades)
              (elapsed_days fixed statistics bars)))
        ⊎ ((run fixed statistics free_config bars intents [] ≡ err overflow)
            × Overflows fixed statistics free_config
                (compound_all fixed (price 1) trades)
                (elapsed_days fixed statistics bars)))
run-Laid_example =
    run-Laid fixed statistics free_config fixed-IsOrdered bars [] intents (omega arith) refl
