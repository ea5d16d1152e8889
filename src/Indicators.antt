-- ===== src/Indicators.antt =====
-- The indicators (app/indicators).
pub mod Atr
pub mod Cvd
pub mod Macd
pub mod Structure
mod Tests
