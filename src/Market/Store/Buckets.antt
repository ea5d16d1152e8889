-- ===== src/Market/Store/Buckets.antt =====
-- The queues of `KlineStore` (app/market/kline_store.py) under `upsert_kline` and `load_from_db`.
use protocol_monitor.Common.{
  ℕ, zero, suc, ◌≡◌, ◌≢◌, sym, ◌≤◌, ◌<◌, ◌-◌, refl, Bool, Bool-cases, Option-cases, String, Option,
  some, List, [], ◌∷◌, ◌++◌, ◌==◌, if◌then◌else◌, get_last?, drop_last, drop, take_last, length,
  length-take_last, length-append, get_last?-append, All, inl, inr, arith,
}
use mathlib.Core.Path.{subst}
use protocol_monitor.Numbers.{Numbers}
use protocol_monitor.Market.Kline.{Kline}
use protocol_monitor.Storage.Klines.{get_recent_rows}
use protocol_monitor.Market.Store.{
  Key, key_eq, key_eq_iff, SymbolItem, Store, key_of, Cache, bucket, set_bucket, put, push,
  upsert_kline, load_interval, load_intervals, load_from_db, limited,
}

module _ {ℓ} {A : Type ℓ} where
  get_last?-drop : (n : ℕ) (xs : List A) → n < length xs → get_last? (drop n xs) ≡ get_last? xs
  get_last?-drop zero xs h = refl
  get_last?-drop (suc n) [] h = elim h [ ]
  get_last?-drop (suc n) (x ∷ []) h = ground arith
  get_last?-drop (suc n) (x ∷ y ∷ ys) h = get_last?-drop n (y ∷ ys) (omega arith)

  pub get_last?-take_last :
      (n : ℕ) (xs : List A) → 0 < n → 0 < length xs → get_last? (take_last n xs) ≡ get_last? xs
  unfolding take_last
  get_last?-take_last n xs h k = get_last?-drop (length xs - n) xs (omega arith)

  pub length-drop_last : (xs : List A) → length (drop_last xs) ≡ length xs - 1
  length-drop_last [] = refl
  length-drop_last (x ∷ []) = refl
  length-drop_last (x ∷ y ∷ ys) = omega (arith, length-drop_last (y ∷ ys))

  pub get_last?-length : (xs : List A) (x : A) → get_last? xs ≡ some x → 0 < length xs
  get_last?-length [] x h = ground arith
  get_last?-length (y ∷ ys) x h = omega arith

module _ (N : Numbers) where
  -- No queue holds more than `limit` candles.
  abbrev pub IsBounded : ℕ → Cache N → Type 0
  IsBounded limit c = All (λ (e : Key × List (Kline N)). length e.1 ≤ limit) c

  get_last?-push :
      (limit : ℕ) (b : List (Kline N)) (k : Kline N)
      → 0 < limit
      → get_last? (push N limit b k) ≡ some k
  get_last?-push limit b k h =
      rw (get_last?-take_last limit (b ++ (k ∷ [])) h (omega (arith, length-append b (k ∷ []))))
        (get_last?-append b k)

  get_last?-put :
      (limit : ℕ) (b : List (Kline N)) (k : Kline N)
      → 0 < limit
      → get_last? (put N limit b k) ≡ some k
  unfolding put
  get_last?-put limit b k h = elim (Option-cases (get_last? b)) [
    | inl e ↦ rw (e, put) (get_last?-push limit b k h)
    | inr (x, e) ↦ elim (Bool-cases (x.open_time == k.open_time)) [
      | inl t ↦ rw (e, t, put) (get_last?-append (drop_last b) k)
      | inr t ↦ rw (e, t, put) (get_last?-push limit b k h)
    ]
  ]

  bucket-IsBounded :
      (limit : ℕ) (k : Key) (c : Cache N) → IsBounded limit c → length (bucket N k c) ≤ limit
  bucket-IsBounded limit k [] h = omega arith
  bucket-IsBounded limit k ((j, b) ∷ rest) h = elim (Bool-cases (key_eq j k)) [
    | inl e ↦ rw e h.0
    | inr e ↦ rw e (bucket-IsBounded limit k rest h.1)
  ]

  set_bucket-IsBounded :
      (limit : ℕ) (k : Key) (b : List (Kline N)) (c : Cache N)
      → length b ≤ limit
      → IsBounded limit c
      → IsBounded limit (set_bucket N k b c)
  set_bucket-IsBounded limit k b [] p h = (p, tt)
  set_bucket-IsBounded limit k b ((j, d) ∷ rest) p h = elim (Bool-cases (key_eq j k)) [
    | inl e ↦ rw e (p, h.1)
    | inr e ↦ rw e (h.0, set_bucket-IsBounded limit k b rest p h.1)
  ]

  bucket-set_bucket :
      (k j : Key) (b : List (Kline N)) (c : Cache N)
      → bucket N j (set_bucket N k b c) ≡ (if key_eq k j then b else bucket N j c)
  bucket-set_bucket k j b [] = refl
  bucket-set_bucket k j b ((i, d) ∷ rest) =
      ground (arith, key_eq_iff k j, key_eq_iff i k, key_eq_iff i j, bucket-set_bucket k j b rest)

  length-push : (limit : ℕ) (b : List (Kline N)) (k : Kline N) → length (push N limit b k) ≤ limit
  length-push limit b k = omega (arith, length-take_last limit (b ++ (k ∷ [])))

  length-put :
      (limit : ℕ) (b : List (Kline N)) (k : Kline N)
      → length b ≤ limit
      → length (put N limit b k) ≤ limit
  unfolding put
  length-put limit b k h = elim (Option-cases (get_last? b)) [
    | inl e ↦ rw (e, put) (length-push limit b k)
    | inr (x, e) ↦ elim (Bool-cases (x.open_time == k.open_time)) [
      | inl t ↦
          rw (e, t, put)
            (omega (
              arith,
              length-append (drop_last b) (k ∷ []),
              length-drop_last b,
              get_last?-length b x e,
            ))
      | inr t ↦ rw (e, t, put) (length-push limit b k)
    ]
  ]

  -- With a limit of at least 1, `upsert_kline` keeps every queue within the store's limit, the candle
  -- given is then the newest of its market's queue, and the queue of every other market is the one
  -- before.
  pub upsert_kline_lem :
      (is_postgres : Bool) (store : Store N) (k : Kline N)
      → 0 < store.cache_limit
      → IsBounded store.cache_limit store.cache
      → IsBounded store.cache_limit (upsert_kline N is_postgres store k).cache
        × (get_last? (bucket N (key_of N k) (upsert_kline N is_postgres store k).cache) ≡ some k)
        × ((j : Key)
            → j ≢ key_of N k
            → bucket N j (upsert_kline N is_postgres store k).cache ≡ bucket N j store.cache)
  unfolding upsert_kline
  upsert_kline_lem is_postgres store k p h = (
    set_bucket-IsBounded store.cache_limit (key_of N k) _ store.cache
        (length-put store.cache_limit (bucket N (key_of N k) store.cache) k
          (bucket-IsBounded store.cache_limit (key_of N k) store.cache h))
        h,
    rw (bucket-set_bucket (key_of N k) (key_of N k) _ store.cache) (
        rw ((key_eq_iff (key_of N k) (key_of N k)).1 refl) (get_last?-put store.cache_limit _ k p)),
    λ j d. ground (
      arith,
      key_eq_iff (key_of N k) j,
      bucket-set_bucket (key_of N k) j
          (put N store.cache_limit (bucket N (key_of N k) store.cache) k) store.cache,
    ),
  )

  load_intervals-IsBounded :
      (store : Store N) (exchange symbol : String) (is : List String) (limit : ℕ)
      → store.cache_limit ≡ limit
      → IsBounded limit store.cache
      → ((load_intervals N store exchange symbol is).cache_limit ≡ limit)
        × IsBounded limit (load_intervals N store exchange symbol is).cache
  unfolding load_intervals load_interval
  load_intervals-IsBounded store exchange symbol [] limit e h = (e, h)
  load_intervals-IsBounded store exchange symbol (i ∷ is) limit e h =
      let key : Key = record { exchange = exchange; symbol = symbol; interval = i } in
      load_intervals-IsBounded (load_interval N store key) exchange symbol is limit e (
        set_bucket-IsBounded limit key _ store.cache
          (omega (
            arith,
            e,
            length-take_last store.cache_limit (
                bucket N key store.cache
                ++ get_recent_rows N exchange symbol i store.cache_limit store.table),
          ))
          h)

  -- Loading the stored candles keeps every queue within the store's limit.
  pub load_from_db-IsBounded :
      (store : Store N) (items : List SymbolItem) (intervals_limit : Option ℕ)
      → IsBounded store.cache_limit store.cache
      → IsBounded store.cache_limit (load_from_db N store items intervals_limit).cache
  unfolding load_from_db
  load_from_db-IsBounded store [] intervals_limit h = h
  load_from_db-IsBounded store (item ∷ items) intervals_limit h =
      let next =
        load_intervals N store item.exchange item.symbol
          (limited N intervals_limit item.intervals) in
      let r =
        load_intervals-IsBounded store item.exchange item.symbol
          (limited N intervals_limit item.intervals) store.cache_limit refl h in
      subst (λ (l : ℕ). IsBounded l (load_from_db N next items intervals_limit).cache) r.0
        (load_from_db-IsBounded next items intervals_limit
          (subst (λ (l : ℕ). IsBounded l next.cache) (sym r.0) r.1))
