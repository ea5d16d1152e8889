-- ===== src/Market/Store/Tests.antt =====
-- The theorems on the store of recent candles and on its table at three candles.
use protocol_monitor.Common.{
  ◌≡◌, ◌≢◌, refl, true, false, some, [], ◌∷◌, if◌then◌else◌, get_last?, arith,
}
use protocol_monitor.Numbers.Fixed.{fixed}
use protocol_monitor.Market.Kline.{Kline}
use protocol_monitor.Market.Samples.{candle, candles}
use protocol_monitor.Storage.Klines.{RowKey, has_key, upsert_row}
use protocol_monitor.Storage.Klines.Upsert.{HasUniqueKeys, row_at, upsert_row_lem}
use protocol_monitor.Market.Store.{Key, Store, bucket, upsert_kline, load_from_db}
use protocol_monitor.Market.Store.Buckets.{IsBounded, upsert_kline_lem, load_from_db-IsBounded}

abbrev ether : Key
ether = record { exchange = "BINANCE"; symbol = "ETHUSDT"; interval = "5m" }

abbrev store : Store fixed
store = record { cache_limit = 3; cache = (ether, candles) ∷ []; table = candles }

abbrev newest : Kline fixed
newest = candle 3 98 99 90 92

store-IsBounded : IsBounded fixed 3 store.cache
store-IsBounded = (omega arith, tt)

upsert_kline_example :
    IsBounded fixed 3 (upsert_kline fixed true store newest).cache
    × (get_last? (bucket fixed ether (upsert_kline fixed true store newest).cache) ≡ some newest)
    × ((j : Key)
        → j ≢ ether
        → bucket fixed j (upsert_kline fixed true store newest).cache ≡ bucket fixed j store.cache)
upsert_kline_example = upsert_kline_lem fixed true store newest (omega arith) store-IsBounded

load_from_db-IsBounded_example :
    IsBounded fixed 3
      (load_from_db fixed store
        (record { exchange = "BINANCE"; symbol = "ETHUSDT"; intervals = "5m" ∷ "1h" ∷ [] } ∷ [])
        (some 1)).cache
load_from_db-IsBounded_example =
    load_from_db-IsBounded fixed store
      (record { exchange = "BINANCE"; symbol = "ETHUSDT"; intervals = "5m" ∷ "1h" ∷ [] } ∷ [])
      (some 1) store-IsBounded

upsert_row_example :
    HasUniqueKeys fixed (upsert_row fixed false newest (candle 1 105 120 100 115 ∷ []))
    × ((key : RowKey)
        → row_at fixed key (upsert_row fixed false newest (candle 1 105 120 100 115 ∷ [])) ≡ (
            if has_key fixed key newest
            then some newest
            else row_at fixed key (candle 1 105 120 100 115 ∷ [])))
upsert_row_example = upsert_row_lem fixed false newest (candle 1 105 120 100 115 ∷ []) (refl, tt)
