-- ===== src/Strategies/MicroRules/Numeric.antt =====
-- Sorting, searching and the statistics that the rules compute: `_quantile`, `median`, `isclose`.
pub mod Laws
use protocol_monitor.Common.{
  ℕ, zero, suc, ◌+◌, ◌-◌, ◌/◌, ◌%◌, Bool, true, false, Option, none, some, List, [], ◌∷◌, ◌==◌,
  if◌then◌else◌, length, get_or,
}
use protocol_monitor.Numbers.{Numbers, nought, fmax, fabs}

module _ {ℓ} {A : Type ℓ} where
  -- `sorted(...)`, which is stable, for a strict order of the keys.
  abbrev pub insert_sorted : (A → A → Bool) → A → List A → List A
  insert_sorted before x [] = x ∷ []
  insert_sorted before x (y ∷ ys) = if before y x then y ∷ insert_sorted before x ys else x ∷ y ∷ ys

  abbrev pub sorted_by : (A → A → Bool) → List A → List A
  sorted_by before [] = []
  sorted_by before (x ∷ xs) = insert_sorted before x (sorted_by before xs)

  -- The first hit of a loop over `range(low + count - 1, low - 1, -1)`.
  unfoldable pub search_down : (ℕ → Option A) → ℕ → ℕ → Option A
  search_down f low zero = none
  search_down f low (suc n) = elim (f (low + n)) [ none ↦ search_down f low n | some a ↦ some a ]

  -- The hits of a loop over `range(start, start + count)`.
  unfoldable pub collect_up : (ℕ → Option A) → ℕ → ℕ → List A
  collect_up f start zero = []
  collect_up f start (suc n) = elim (f start) [
    | none ↦ collect_up f (suc start) n
    | some a ↦ a ∷ collect_up f (suc start) n
  ]

  -- `[x for x in xs if x is not None]`
  abbrev pub present : List (Option A) → List A
  present [] = []
  present (none ∷ xs) = present xs
  present (some x ∷ xs) = x ∷ present xs

module _ (N : Numbers) where
  open N use {Float, lit, add, sub, mul, div, neg, lt, le, eq}

  -- `math.floor(x)` for an `x` from 0 up to below `n + 1`.
  unfoldable pub floor_to : ℕ → Float → ℕ
  floor_to zero x = zero
  floor_to (suc n) x = if le (lit (suc n) 0) x then suc n else floor_to n x

  abbrev pub sorted_floats : List Float → List Float
  sorted_floats = sorted_by lt

  -- `_quantile` of the values `x ∷ xs`; `probability` is between 0 and 1.
  unfoldable pub quantile_from : Float → List Float → Float → Float
  quantile_from x xs probability =
      let ordered = sorted_floats (x ∷ xs) in
      let position = mul (lit (length xs) 0) probability in
      let lower = floor_to (length xs) position in
      let upper = if eq (lit lower 0) position then lower else suc lower in
      let weight = sub position (lit lower 0) in
      if lower == upper
      then get_or ordered lower x
      else add (mul (get_or ordered lower x) (sub (lit 1 0) weight))
          (mul (get_or ordered upper x) weight)

  -- `_quantile`; `none` is the ValueError.
  pub quantile : List Float → Float → Option Float
  quantile [] probability = none
  quantile (x ∷ xs) probability = some (quantile_from x xs probability)

  -- `statistics.median` of the values `x ∷ xs`.
  unfoldable pub median_from : Float → List Float → Float
  median_from x xs =
      let ordered = sorted_floats (x ∷ xs) in
      let n = length (x ∷ xs) in
      if n % 2 == 1
      then get_or ordered (n / 2) x
      else div (add (get_or ordered (n / 2 - 1) x) (get_or ordered (n / 2) x)) (lit 2 0)

  -- `math.isclose(a, b, abs_tol=1e-15)`
  abbrev pub is_close : Float → Float → Bool
  is_close a b =
      le (fabs N (sub a b)) (fmax N (mul (lit 1 9) (fmax N (fabs N a) (fabs N b))) (lit 1 15))
