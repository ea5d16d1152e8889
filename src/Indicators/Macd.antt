-- ===== src/Indicators/Macd.antt =====
-- app/indicators/macd.py: exponential averages and the MACD.
use protocol_monitor.Common.{
  ℕ, suc, ◌+◌, ◌≤◌, ◌≡◌, refl, ap, Option, none, some, List, [], ◌∷◌, ◌++◌, map, ltb, if◌then◌else◌,
  length, get_last?, arith, Bool-cases, inl, inr,
}
use protocol_monitor.Numbers.{Numbers, nought}
use protocol_monitor.Market.Kline.{Kline}

pub record MacdResult (N : Numbers) : Type 0 where
  pub macd : N.Float
  pub signal : N.Float
  pub histogram : N.Float

module _ (N : Numbers) where
  open N use {Float, float, lit, add, sub, mul, div}

  -- `alpha`
  abbrev pub alpha : ℕ → Float
  alpha period = div (lit 2 0) (lit (period + 1) 0)

  abbrev pub smooth : Float → Float → Float → Float
  smooth a last x = add (mul x a) (mul last (sub (lit 1 0) a))

  -- The loop of `_ema`, after the average `last`.
  pub ema_from : Float → Float → List Float → List Float
  ema_from a last [] = []
  ema_from a last (x ∷ xs) = smooth a last x ∷ ema_from a (smooth a last x) xs

  -- `_ema`
  pub ema : List Float → ℕ → List Float
  ema [] period = []
  ema (x ∷ xs) period = x ∷ ema_from (alpha period) x xs

  -- `[a - b for a, b in zip(xs, ys)]`
  pub differences : List Float → List Float → List Float
  differences [] ys = []
  differences (x ∷ xs) [] = []
  differences (x ∷ xs) (y ∷ ys) = sub x y ∷ differences xs ys

  pub macd_series : List Float → ℕ → ℕ → List Float
  macd_series closes fast slow = differences (ema closes fast) (ema closes slow)

  abbrev zeros : MacdResult N
  zeros = record { macd = nought N; signal = nought N; histogram = nought N }

  -- The last values of the two series; `none` is the IndexError of `series[-1]`.
  abbrev pub last_values : Option Float → Option Float → Option (MacdResult N)
  last_values (some m) (some s) = some (record { macd = m; signal = s; histogram = sub m s })
  last_values _ _ = none

  -- `calculate_macd`
  pub calculate_macd : List (Kline N) → ℕ → ℕ → ℕ → Option (MacdResult N)
  calculate_macd candles fast slow signal =
      let closes = map (λ (c : Kline N). float c.close) candles in
      let series = macd_series closes fast slow in
      if ltb (length closes) slow
      then some zeros
      else last_values (get_last? series) (get_last? (ema series signal))

  length-ema_from : (a last : Float) (xs : List Float) → length (ema_from a last xs) ≡ length xs
  unfolding ema_from
  length-ema_from a last [] = refl
  length-ema_from a last (x ∷ xs) = ap suc (length-ema_from a (smooth a last x) xs)

  length-ema : (xs : List Float) (period : ℕ) → length (ema xs period) ≡ length xs
  unfolding ema
  length-ema [] period = refl
  length-ema (x ∷ xs) period = ap suc (length-ema_from (alpha period) x xs)

  length-differences :
      (xs ys : List Float) → length xs ≡ length ys → length (differences xs ys) ≡ length xs
  unfolding differences
  length-differences [] ys e = refl
  length-differences (x ∷ xs) [] e = absurd (omega arith)
  length-differences (x ∷ xs) (y ∷ ys) e = ap suc (length-differences xs ys (omega arith))

  get_last?-total : (xs : List Float) → 1 ≤ length xs → (x : Float) × (get_last? xs ≡ some x)
  get_last?-total [] h = elim h [ ]
  get_last?-total (x ∷ []) h = (x, refl)
  get_last?-total (x ∷ y ∷ ys) h = get_last?-total (y ∷ ys) (omega arith)

  length-map_close :
      (candles : List (Kline N))
      → length (map (λ (c : Kline N). float c.close) candles) ≡ length candles
  length-map_close [] = refl
  length-map_close (c ∷ cs) = ap suc (length-map_close cs)

  -- With a slow period of at least one bar the MACD of any candles has a value, and its histogram is
  -- the MACD less its signal, unless there are fewer candles than the slow period: then all is zero.
  pub calculate_macd-total :
      (candles : List (Kline N)) (fast slow signal : ℕ)
      → 1 ≤ slow
      → (r : MacdResult N) × (calculate_macd candles fast slow signal ≡ some r)
        × ((slow ≤ length candles → r.histogram ≡ sub r.macd r.signal)
            × (suc (length candles) ≤ slow → r.histogram ≡ nought N))
  unfolding calculate_macd macd_series
  calculate_macd-total candles fast slow signal pos =
      let closes = map (λ (c : Kline N). float c.close) candles in
      let series = macd_series closes fast slow in
      let len = length-map_close candles in
      let series_len : length series ≡ length closes = omega (
        arith,
        length-ema closes fast,
        length-ema closes slow,
        length-differences (ema closes fast) (ema closes slow),
      ) in
      elim (Bool-cases (ltb (length closes) slow)) [
        | inl short ↦ (zeros, rw short, (λ h. absurd (ground (arith, len)), λ h. refl))
        | inr long ↦
            let room : 1 ≤ length closes = ground arith in
            let (m, em) = get_last?-total series (omega (arith, series_len)) in
            let (s, es) =
              get_last?-total (ema series signal)
                (omega (arith, series_len, length-ema series signal)) in
            (
              record { macd = m; signal = s; histogram = sub m s },
              rw (long, em, es),
              (λ h. refl, λ h. absurd (ground (arith, len))),
            )
      ]

  ema_from-append :
      (a last : Float) (xs ys : List Float)
      → (later : List Float) × (ema_from a last (xs ++ ys) ≡ ema_from a last xs ++ later)
        × (length later ≡ length ys)
  unfolding ema_from
  ema_from-append a last [] ys = (ema_from a last ys, refl, length-ema_from a last ys)
  ema_from-append a last (x ∷ xs) ys =
      let (later, e, len) = ema_from-append a (smooth a last x) xs ys in (later, rw e, len)

  -- The averages of past values do not change when later values are appended.
  pub ema-append :
      (x : Float) (xs ys : List Float) (period : ℕ)
      → (later : List Float) × (ema (x ∷ xs ++ ys) period ≡ ema (x ∷ xs) period ++ later)
        × (length later ≡ length ys)
  unfolding ema
  ema-append x xs ys period =
      let (later, e, len) = ema_from-append (alpha period) x xs ys in (later, rw e, len)
