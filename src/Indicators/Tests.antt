-- ===== src/Indicators/Tests.antt =====
-- The theorems on the indicators at three candles in scaled integers.
