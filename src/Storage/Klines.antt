-- ===== src/Storage/Klines.antt =====
-- `KlineRepository`: the `klines` table, with its unique market, interval and open time.
pub mod Upsert
use protocol_monitor.Common.{
  ℕ, ◌≡◌, ◌↔◌, String, Bool, true, false, not, ◌&&◌, Option, none, some, List, [], ◌∷◌, ◌++◌,
  str_eq, if◌then◌else◌, ◌==◌, leb, keep, any_of, take, length,
}
use mathlib.Core.List.{reverse}
use protocol_monitor.Numbers.{Numbers}
use protocol_monitor.Market.Kline.{Kline, DateTime}

-- The columns of the table's unique constraint.
pub record RowKey : Type 0 where
  pub exchange : String
  pub symbol : String
  pub interval : String
  pub open_time : DateTime

unfoldable pub row_eq : RowKey → RowKey → Bool
row_eq a b =
    str_eq a.exchange b.exchange
    && (str_eq a.symbol b.symbol && (str_eq a.interval b.interval && a.open_time == b.open_time))

module _ (N : Numbers) where
  abbrev pub row_key : Kline N → RowKey
  row_key k = record {
    exchange = k.exchange;
    symbol = k.symbol;
    interval = k.interval;
    open_time = k.open_time;
  }

  abbrev pub KlineTable : Type 0
  KlineTable = List (Kline N)

  abbrev pub has_key : RowKey → Kline N → Bool
  has_key key k = row_eq (row_key k) key

  -- `INSERT … ON CONFLICT DO UPDATE`
  pub insert_or_update : Kline N → KlineTable → KlineTable
  insert_or_update k [] = k ∷ []
  insert_or_update k (r ∷ rs) = if has_key (row_key k) r then k ∷ rs else r ∷ insert_or_update k rs

  -- `DELETE`, then `INSERT`.
  pub delete_and_insert : Kline N → KlineTable → KlineTable
  delete_and_insert k table = keep (λ (r : Kline N). not (has_key (row_key k) r)) table ++ (k ∷ [])

  -- `upsert_kline`, on the two kinds of database.
  pub upsert_row : Bool → Kline N → KlineTable → KlineTable
  upsert_row is_postgres k table =
      if is_postgres then insert_or_update k table else delete_and_insert k table

  insert_newest : Kline N → KlineTable → KlineTable
  insert_newest k [] = k ∷ []
  insert_newest k (r ∷ rs) =
      if leb r.open_time k.open_time then k ∷ r ∷ rs else r ∷ insert_newest k rs

  -- `ORDER BY open_time DESC`
  pub newest_first : KlineTable → KlineTable
  newest_first [] = []
  newest_first (k ∷ ks) = insert_newest k (newest_first ks)

  abbrev pub in_market : String → String → String → Kline N → Bool
  in_market exchange symbol interval k =
      str_eq k.exchange exchange && (str_eq k.symbol symbol && str_eq k.interval interval)

  -- `get_recent`: the newest rows of a market, oldest first.
  pub get_recent_rows : String → String → String → ℕ → KlineTable → List (Kline N)
  get_recent_rows exchange symbol interval limit table =
      reverse (take limit (newest_first (keep (in_market exchange symbol interval) table)))

  -- `count_klines`
  pub count_klines : KlineTable → ℕ
  count_klines table = length table
