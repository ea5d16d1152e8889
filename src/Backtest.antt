-- ===== src/Backtest.antt =====
-- The backtests (app/backtest): the bar-based trade simulation.
pub mod Engine
pub mod WalkForward
pub mod Orb
