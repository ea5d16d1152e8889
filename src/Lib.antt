-- ===== src/Lib.antt =====
-- A verification library for the SmartMoney protocol monitor (Python, under app/).
--
-- The monitor reads candles from an exchange, keeps them in a store, computes indicators, runs
-- strategies over them, routes the signals through risk limits and a cooldown to notifiers, and
-- follows the triggered signals to their result; a backtest engine replays intents over bars.
--
-- Parts and their files:
--   Numbers        floats and decimals as a parameter, the laws assumed of them, and an instance over
--                  integers that count ten-thousandths
--   Market         app/market: Kline (models.py), Store (kline_store.py), Calendar (xnys_calendar.py)
--   Indicators     app/indicators: Structure, Atr (atr.py and vwap.py), Macd, Cvd
--   Risk           app/risk: Levels (stops.py, rr.py, time_stop.py), BtcFilter, Cooldown, Portfolio
--   Signals        app/signals: Models, Lifecycle, Router
--   Storage        app/storage/repositories.py: Klines, Signals, RiskState, States, on the
--                  tables of app/storage/models.py
--   Review         app/review: Decision (llm_decision.py)
--   Strategies     app/strategies: Base (base.py, state_machine.py), StandAbove
--                  (eth_stand_above_level.py), MicroRules (crypto_micro_rules.py),
--                  OrbRetest (equity_orb_retest.py)
--   Backtest       app/backtest: Engine (engine.py), WalkForward (walk_forward.py),
--                  Orb (orb.py)
-- Definitions keep the names of the functions that they translate; a loop body or a group of guards
-- that has no name in the code is a helper whose comment gives its lines.
--
-- How state is modelled: a method that changes its object takes the object and returns the new one; a
-- table is the list of its rows; an exception is a result or `none`. The store hands closed candles to
-- the klines table, the lifecycle and the risk policy read and write the signals table, and a strategy
-- reads the store through its indicators.
--
-- Bounds and conventions:
--   - A float or a decimal is a number: no NaN, no infinity. Theorems that need more than the code's
--     own tests assume laws of order and rounding by name (Numbers/Laws).
--   - A datetime is a natural number of microseconds; sums of hours and minutes are exact. A count or
--     a period that Python takes as any integer is a natural number.
--   - The calendar's dates are a year and a day of that year; `timedelta` sums stay below a year.
--   - Upper case is that of ASCII letters.
--   - The walk-forward loop has fuel for one turn per observation and one more, and returns with it.
--     Every other loop is structural recursion.
--   - A power of floats can overflow: it is an `Option`, and the error of the backtest's annualization
--     is a result. What the database refuses to insert into the signals table is a parameter.
--   - The clock, `uuid4`, callbacks and the statistics library are arguments; so are the logarithm,
--     infinity and the text forms that the micro rules use (MicroRules.Library).
--   - A naive datetime counts as UTC, so the micro rules compare times as they are.
--   - The JSON decoder, the code-fence expression and the field validation of the decision model are
--     the parameter Decision.Payload.Reader; a trade's error texts are constructors. Tests of digits,
--     blanks and words are those of ASCII.
--   - New York's clock is the parameter OrbRetest.Clock; a time there is its instant.
--
-- Not modelled: network clients, message rendering, configuration loading, asyncio tasks and sessions
-- of the database, the other review reports, the C-M2 and C-M3 strategies on dynamic levels and the
-- archive backtest.
pub mod Backtest
pub mod Common
pub mod Indicators
pub mod Market
pub mod Numbers
pub mod Review
pub mod Risk
pub mod Signals
pub mod Storage
pub mod Strategies
