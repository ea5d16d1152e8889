-- ===== src/Storage/Klines/Upsert.antt =====
-- The two ways to write a candle agree.
use protocol_monitor.Common.{
  ◌≡◌, ◌↔◌, refl, sym, Bool, true, false, not, ◌||◌, Option, none, some, [], ◌∷◌, ◌++◌, str_eq_iff,
  if◌then◌else◌, keep, any_of, arith, Bool-cases, inl, inr,
}
use protocol_monitor.Numbers.{Numbers}
use protocol_monitor.Market.Kline.{Kline}
use protocol_monitor.Storage.Klines.{
  RowKey, row_eq, row_key, KlineTable, has_key, insert_or_update, delete_and_insert, upsert_row,
}

row_eq_iff : (a b : RowKey) → (row_eq a b ≡ true) ↔ (a ≡ b)
unfolding row_eq
row_eq_iff a b = ground (
  arith,
  str_eq_iff a.exchange b.exchange,
  str_eq_iff a.symbol b.symbol,
  str_eq_iff a.interval b.interval,
)

module _ (N : Numbers) where
  -- The row with a key.
  abbrev pub row_at : RowKey → KlineTable N → Option (Kline N)
  row_at key [] = none
  row_at key (r ∷ rs) = if has_key N key r then some r else row_at key rs

  -- No two rows have one key.
  abbrev pub HasUniqueKeys : KlineTable N → Type 0
  HasUniqueKeys [] = Unit
  HasUniqueKeys (r ∷ rs) = (any_of (has_key N (row_key N r)) rs ≡ false) × HasUniqueKeys rs

  row_at-insert_or_update :
      (k : Kline N) (table : KlineTable N) (key : RowKey)
      → row_at key (insert_or_update N k table)
        ≡ (if has_key N key k then some k else row_at key table)
  unfolding insert_or_update
  row_at-insert_or_update k [] key = refl
  row_at-insert_or_update k (r ∷ rs) key = ground (
    arith,
    row_eq_iff (row_key N k) key,
    row_eq_iff (row_key N r) (row_key N k),
    row_eq_iff (row_key N r) key,
    row_at-insert_or_update k rs key,
  )

  row_at-delete_and_insert :
      (k : Kline N) (table : KlineTable N) (key : RowKey)
      → row_at key (delete_and_insert N k table)
        ≡ (if has_key N key k then some k else row_at key table)
  unfolding delete_and_insert
  row_at-delete_and_insert k [] key = refl
  row_at-delete_and_insert k (r ∷ rs) key = ground (
    arith,
    row_eq_iff (row_key N k) key,
    row_eq_iff (row_key N r) (row_key N k),
    row_eq_iff (row_key N r) key,
    row_at-delete_and_insert k rs key,
  )

  any_of-insert_or_update :
      (k : Kline N) (table : KlineTable N) (key : RowKey)
      → any_of (has_key N key) (insert_or_update N k table)
        ≡ (has_key N key k || any_of (has_key N key) table)
  unfolding insert_or_update
  any_of-insert_or_update k [] key = refl
  any_of-insert_or_update k (r ∷ rs) key = ground (
    arith,
    row_eq_iff (row_key N k) key,
    row_eq_iff (row_key N r) (row_key N k),
    row_eq_iff (row_key N r) key,
    any_of-insert_or_update k rs key,
  )

  insert_or_update-HasUniqueKeys :
      (k : Kline N) (table : KlineTable N)
      → HasUniqueKeys table
      → HasUniqueKeys (insert_or_update N k table)
  unfolding insert_or_update
  insert_or_update-HasUniqueKeys k [] h = (refl, tt)
  insert_or_update-HasUniqueKeys k (r ∷ rs) h = elim (Bool-cases (has_key N (row_key N k) r)) [
    | inl e ↦ rw e (rw (sym ((row_eq_iff (row_key N r) (row_key N k)).0 e)) h.0, h.1)
    | inr e ↦ rw e (
      ground (
        arith,
        h.0,
        e,
        any_of-insert_or_update k rs (row_key N r),
        row_eq_iff (row_key N k) (row_key N r),
        row_eq_iff (row_key N r) (row_key N k),
      ),
      insert_or_update-HasUniqueKeys k rs h.1,
    )
  ]

  any_of-keep :
      (k : Kline N) (table : KlineTable N) (key : RowKey)
      → any_of (has_key N key) table ≡ false
      → any_of (has_key N key) (keep (λ (r : Kline N). not (has_key N (row_key N k) r)) table)
        ≡ false
  any_of-keep k [] key h = refl
  any_of-keep k (r ∷ rs) key h = ground (arith, any_of-keep k rs key)

  HasUniqueKeys-keep :
      (k : Kline N) (table : KlineTable N)
      → HasUniqueKeys table
      → HasUniqueKeys (keep (λ (r : Kline N). not (has_key N (row_key N k) r)) table)
  HasUniqueKeys-keep k [] h = tt
  HasUniqueKeys-keep k (r ∷ rs) h = elim (Bool-cases (has_key N (row_key N k) r)) [
    | inl e ↦ rw e (HasUniqueKeys-keep k rs h.1)
    | inr e ↦ rw e (any_of-keep k rs (row_key N r) h.0, HasUniqueKeys-keep k rs h.1)
  ]

  any_of-snoc :
      (key : RowKey) (k : Kline N) (table : KlineTable N)
      → any_of (has_key N key) table ≡ false
      → has_key N key k ≡ false
      → any_of (has_key N key) (table ++ (k ∷ [])) ≡ false
  any_of-snoc key k [] h e = rw e refl
  any_of-snoc key k (r ∷ rs) h e = ground (arith, any_of-snoc key k rs)

  HasUniqueKeys-snoc :
      (k : Kline N) (table : KlineTable N)
      → any_of (has_key N (row_key N k)) table ≡ false
      → HasUniqueKeys table
      → HasUniqueKeys (table ++ (k ∷ []))
  HasUniqueKeys-snoc k [] f h = (refl, tt)
  HasUniqueKeys-snoc k (r ∷ rs) f h = (
    any_of-snoc (row_key N r) k rs h.0 (
        ground (
          arith,
          f,
          row_eq_iff (row_key N k) (row_key N r),
          row_eq_iff (row_key N r) (row_key N k),
        )),
    HasUniqueKeys-snoc k rs (ground (arith, f)) h.1,
  )

  any_of-kept :
      (k : Kline N) (table : KlineTable N)
      → any_of
          (has_key N (row_key N k))
          (keep (λ (r : Kline N). not (has_key N (row_key N k) r)) table)
        ≡ false
  any_of-kept k [] = refl
  any_of-kept k (r ∷ rs) = ground (arith, any_of-kept k rs)

  delete_and_insert-HasUniqueKeys :
      (k : Kline N) (table : KlineTable N)
      → HasUniqueKeys table
      → HasUniqueKeys (delete_and_insert N k table)
  unfolding delete_and_insert
  delete_and_insert-HasUniqueKeys k table h =
      HasUniqueKeys-snoc k _ (any_of-kept k table) (HasUniqueKeys-keep k table h)

  -- On either database, writing a candle into a table in which no two rows have one key keeps that
  -- so, and afterwards a lookup by key finds the written candle at its own key and the row from
  -- before at every other key.
  pub upsert_row_lem :
      (is_postgres : Bool) (k : Kline N) (table : KlineTable N)
      → HasUniqueKeys table
      → HasUniqueKeys (upsert_row N is_postgres k table)
        × ((key : RowKey)
            → row_at key (upsert_row N is_postgres k table)
              ≡ (if has_key N key k then some k else row_at key table))
  unfolding upsert_row
  upsert_row_lem true k table h =
      (insert_or_update-HasUniqueKeys k table h, row_at-insert_or_update k table)
  upsert_row_lem false k table h =
      (delete_and_insert-HasUniqueKeys k table h, row_at-delete_and_insert k table)
