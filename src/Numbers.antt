-- ===== src/Numbers.antt =====
-- Python's `float` and `decimal.Decimal`, which stand outside src/: what the code uses of them is a
-- record `Numbers`, a parameter of the components that compute with prices. A `float` here is a
-- number; NaN is no value of the carrier. `div x y` is the quotient for a divisor other than zero
-- (the callers test it, or write out the ZeroDivisionError).
-- The children hold the order and arithmetic laws that theorems assume by name, and an instance
-- over scaled integers that meets them.
pub mod Laws
pub mod Fixed
use protocol_monitor.Common.{ℕ, Bool, if◌then◌else◌, List, [], ◌∷◌, not}

pub record Numbers : Type 1 where
  pub Float : Type 0
  pub Decimal : Type 0
  -- `float(d)`
  pub float : Decimal → Float
  -- The literal `m / 10 ** k`.
  pub lit : ℕ → ℕ → Float
  pub add : Float → Float → Float
  pub sub : Float → Float → Float
  pub mul : Float → Float → Float
  pub div : Float → Float → Float
  pub neg : Float → Float
  pub lt : Float → Float → Bool
  pub le : Float → Float → Bool
  pub eq : Float → Float → Bool
  -- `round(x, digits)`
  pub round : Float → ℕ → Float
  -- Comparison and arithmetic of decimals.
  pub dec_lit : ℕ → ℕ → Decimal
  pub dec_add : Decimal → Decimal → Decimal
  pub dec_sub : Decimal → Decimal → Decimal
  pub dec_mul : Decimal → Decimal → Decimal
  pub dec_lt : Decimal → Decimal → Bool
  pub dec_le : Decimal → Decimal → Bool

module _ (N : Numbers) where
  open N use {Float, lit, add, neg, lt, eq}

  -- `0.0`
  abbrev pub nought : Float
  nought = lit 0 0

  -- `max(a, b)` of Python: the first argument unless the second is greater.
  abbrev pub fmax : Float → Float → Float
  fmax a b = if lt a b then b else a

  -- `min(a, b)` of Python: the first argument unless the second is smaller.
  abbrev pub fmin : Float → Float → Float
  fmin a b = if lt b a then b else a

  -- `abs(a)`
  abbrev pub fabs : Float → Float
  fabs a = if lt a nought then neg a else a

  -- `sum(xs)`, from the left.
  abbrev pub fsum_from : Float → List Float → Float
  fsum_from acc [] = acc
  fsum_from acc (x ∷ xs) = fsum_from (add acc x) xs

  abbrev pub fsum : List Float → Float
  fsum xs = fsum_from nought xs

  -- `max(x, *xs)`
  abbrev pub fmax_from : Float → List Float → Float
  fmax_from acc [] = acc
  fmax_from acc (x ∷ xs) = fmax_from (fmax acc x) xs

  -- `min(x, *xs)`
  abbrev pub fmin_from : Float → List Float → Float
  fmin_from acc [] = acc
  fmin_from acc (x ∷ xs) = fmin_from (fmin acc x) xs

  -- `bool(x)` of a float.
  abbrev pub truthy : Float → Bool
  truthy a = not (eq a nought)
