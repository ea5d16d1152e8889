-- ===== src/Market.antt =====
-- Market data (app/market): the candle, the store of recent candles, the exchange calendar.
pub mod Calendar
pub mod Kline
pub mod Samples
pub mod Store
