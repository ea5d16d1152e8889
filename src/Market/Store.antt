-- ===== src/Market/Store.antt =====
-- `KlineStore` of app/market/kline_store.py: the recent candles of each market in bounded queues, and
-- the closed ones handed on to the repository.
pub mod Buckets
mod Tests
use protocol_monitor.Common.{
  ℕ, ◌≡◌, ◌↔◌, String, Bool, true, false, ◌&&◌, Option, none, some, List, [], ◌∷◌, ◌++◌, str_eq,
  str_eq_iff, if◌then◌else◌, ◌==◌, get_last?, drop_last, take, take_last, arith,
}
use protocol_monitor.Numbers.{Numbers}
use protocol_monitor.Market.Kline.{Kline}
use protocol_monitor.Storage.Klines.{KlineTable, upsert_row, get_recent_rows}

pub record Key : Type 0 where
  pub exchange : String
  pub symbol : String
  pub interval : String

unfoldable pub key_eq : Key → Key → Bool
key_eq a b =
    str_eq a.exchange b.exchange && (str_eq a.symbol b.symbol && str_eq a.interval b.interval)

pub key_eq_iff : (a b : Key) → (key_eq a b ≡ true) ↔ (a ≡ b)
unfolding key_eq
key_eq_iff a b = ground (
  arith,
  str_eq_iff a.exchange b.exchange,
  str_eq_iff a.symbol b.symbol,
  str_eq_iff a.interval b.interval,
)

-- An entry of the configured symbols, with its intervals.
pub record SymbolItem : Type 0 where
  pub exchange : String
  pub symbol : String
  pub intervals : List String

module _ (N : Numbers) where
  abbrev pub key_of : Kline N → Key
  key_of k = record { exchange = k.exchange; symbol = k.symbol; interval = k.interval }

  -- `_cache`: a key that is absent has an empty queue.
  abbrev pub Cache : Type 0
  Cache = List (Key × List (Kline N))

  abbrev pub bucket : Key → Cache → List (Kline N)
  bucket k [] = []
  bucket k ((j, b) ∷ rest) = if key_eq j k then b else bucket k rest

  abbrev pub set_bucket : Key → List (Kline N) → Cache → Cache
  set_bucket k b [] = (k, b) ∷ []
  set_bucket k b ((j, c) ∷ rest) =
      if key_eq j k then (k, b) ∷ rest else (j, c) ∷ set_bucket k b rest

  -- `KlineStore`, with the table of its repository.
  pub record Store : Type 0 where
    pub cache_limit : ℕ
    pub cache : Cache
    pub table : KlineTable N

  -- `deque.append` under `maxlen`.
  abbrev pub push : ℕ → List (Kline N) → Kline N → List (Kline N)
  push limit b k = take_last limit (b ++ (k ∷ []))

  -- Lines 16 to 20: a candle with the open time of the newest one replaces it.
  pub put : ℕ → List (Kline N) → Kline N → List (Kline N)
  put limit b k = elim (get_last? b) [
    | none ↦ push limit b k
    | some newest ↦
        if newest.open_time == k.open_time then drop_last b ++ (k ∷ []) else push limit b k
  ]

  -- `upsert_kline`
  pub upsert_kline : Bool → Store → Kline N → Store
  upsert_kline is_postgres store k = record store {
    cache =
        set_bucket (key_of k) (put store.cache_limit (bucket (key_of k) store.cache) k) store.cache;
    table = if k.is_closed then upsert_row N is_postgres k store.table else store.table;
  }

  -- `list(queue)[-limit:]`, which is the whole queue for a limit of 0.
  abbrev pub last_items : ℕ → List (Kline N) → List (Kline N)
  last_items limit b = if limit == 0 then b else take_last limit b

  -- `get_recent`
  pub get_recent : Store → Key → ℕ → List (Kline N)
  get_recent store key limit = last_items limit (bucket key store.cache)

  -- The innermost loop of `load_from_db`: the queue of one interval is extended by stored rows.
  pub load_interval : Store → Key → Store
  load_interval store key =
      let rows =
        get_recent_rows N key.exchange key.symbol key.interval store.cache_limit store.table in
      record store {
        cache =
            set_bucket key (take_last store.cache_limit (bucket key store.cache ++ rows))
              store.cache;
      }

  pub load_intervals : Store → String → String → List String → Store
  load_intervals store exchange symbol [] = store
  load_intervals store exchange symbol (i ∷ is) =
      load_intervals
        (load_interval store (record { exchange = exchange; symbol = symbol; interval = i }))
        exchange symbol is

  abbrev limited : Option ℕ → List String → List String
  limited none intervals = intervals
  limited (some n) intervals = take n intervals

  -- `load_from_db`
  pub load_from_db : Store → List SymbolItem → Option ℕ → Store
  load_from_db store [] intervals_limit = store
  load_from_db store (item ∷ items) intervals_limit =
      load_from_db
        (load_intervals store item.exchange item.symbol (limited intervals_limit item.intervals))
        items intervals_limit
