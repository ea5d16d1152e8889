-- ===== src/Numbers/Laws.antt =====
-- The laws of comparison and arithmetic that theorems assume of the floats, all of them documented
-- behaviour of IEEE 754 away from NaN and infinity: the order is total, a difference has the sign
-- of the comparison, rounding is monotone.
use protocol_monitor.Common.{ℕ, suc, List, [], ◌∷◌, All, ◌≡◌, true, false, not, arith}
use protocol_monitor.Numbers.{Numbers, nought, fmax, fmin, fmax_from}

pub record IsOrdered (N : Numbers) : Type 0 where
  pub lt_asym : (a b : N.Float) → N.lt a b ≡ true → N.lt b a ≡ false
  pub le-eq-not-lt : (a b : N.Float) → N.le a b ≡ not (N.lt b a)
  pub le_trans : (a b c : N.Float) → N.le a b ≡ true → N.le b c ≡ true → N.le a c ≡ true
  pub eq-le : (a b : N.Float) → N.eq a b ≡ true → N.le a b ≡ true
  pub le-eq : (a b : N.Float) → N.le a b ≡ true → N.le b a ≡ true → N.eq a b ≡ true

-- Rounding is monotone, and a difference, a product or a quotient has the sign that the exact one
-- has, or is zero.
pub record IsRounded (N : Numbers) : Type 0 where
  pub sub_pos : (a b : N.Float) → N.lt (nought N) (N.sub a b) ≡ N.lt b a
  pub sub_mono : (a b c : N.Float) → N.le a b ≡ true → N.le (N.sub a c) (N.sub b c) ≡ true
  pub add_mono : (a b c : N.Float) → N.le a b ≡ true → N.le (N.add a c) (N.add b c) ≡ true
  pub mul_nonneg :
      (a b : N.Float)
      → N.le (nought N) a ≡ true
      → N.le (nought N) b ≡ true
      → N.le (nought N) (N.mul a b) ≡ true
  pub div_nonneg :
      (a b : N.Float)
      → N.le (nought N) a ≡ true
      → N.lt (nought N) b ≡ true
      → N.le (nought N) (N.div a b) ≡ true
  pub add_nonneg :
      (a b : N.Float)
      → N.le (nought N) a ≡ true
      → N.le (nought N) b ≡ true
      → N.le (nought N) (N.add a b) ≡ true
  pub neg_nonneg : (a : N.Float) → N.lt a (nought N) ≡ true → N.le (nought N) (N.neg a) ≡ true
  pub lit_pos : (n : ℕ) → N.lt (nought N) (N.lit (suc n) 0) ≡ true
  pub div_pos :
      (a b : N.Float)
      → N.lt (nought N) b ≡ true
      → N.lt (nought N) (N.div a b) ≡ true
      → N.lt (nought N) a ≡ true
  pub sub-le : (a b : N.Float) → N.le (nought N) b ≡ true → N.le (N.sub a b) a ≡ true
  pub le-add : (a b : N.Float) → N.le (nought N) b ≡ true → N.le a (N.add a b) ≡ true
  pub halve-le :
      (a : N.Float)
      → N.le (nought N) a ≡ true
      → (N.le (nought N) (N.mul a (N.lit 5 1)) ≡ true) × (N.le (N.mul a (N.lit 5 1)) a ≡ true)

module _ (N : Numbers) (laws : IsOrdered N) where
  open N use {Float, lt, le}
  open laws use {lt_asym, le-eq-not-lt}

  pub le_refl : (a : Float) → le a a ≡ true
  le_refl a = ground (arith, le-eq-not-lt a a, lt_asym a a)

  pub le_of_lt : (a b : Float) → lt a b ≡ true → le a b ≡ true
  le_of_lt a b h = ground (arith, le-eq-not-lt a b, lt_asym a b)

  pub le_of_not_lt : (a b : Float) → lt a b ≡ false → le b a ≡ true
  le_of_not_lt a b h = ground (arith, le-eq-not-lt b a)

  pub not_lt_of_le : (a b : Float) → le a b ≡ true → lt b a ≡ false
  not_lt_of_le a b h = ground (arith, le-eq-not-lt a b)

  pub le-fmax_left : (a b : Float) → le a (fmax N a b) ≡ true
  le-fmax_left a b = ground (arith, le_refl a, le_of_lt a b)

  pub le-fmax_right : (a b : Float) → le b (fmax N a b) ≡ true
  le-fmax_right a b = ground (arith, le_refl b, le_of_not_lt a b)

  pub fmin-le_left : (a b : Float) → le (fmin N a b) a ≡ true
  fmin-le_left a b = ground (arith, le_refl a, le_of_lt b a)

  pub fmin-le_right : (a b : Float) → le (fmin N a b) b ≡ true
  fmin-le_right a b = ground (arith, le_refl b, le_of_not_lt b a)

  pub lt_trans : (a b c : Float) → lt a b ≡ true → lt b c ≡ true → lt a c ≡ true
  lt_trans a b c h k = ground (
    arith,
    le-eq-not-lt c a,
    le-eq-not-lt c b,
    le_of_lt a b h,
    laws.le_trans c a b,
    le_of_lt b c k,
  )

  pub le_lt_trans : (a b c : Float) → le a b ≡ true → lt b c ≡ true → lt a c ≡ true
  le_lt_trans a b c h k = ground (arith, le-eq-not-lt c a, le-eq-not-lt c b, laws.le_trans c a b)

  pub fmax_from-lt :
      (x : Float) (xs : List Float) (c : Float)
      → lt (fmax_from N x xs) c ≡ true
      → All (λ (y : Float). lt y c ≡ true) (x ∷ xs)
  fmax_from-lt x [] c h = (h, tt)
  fmax_from-lt x (y ∷ ys) c h =
      let (top, rest) = fmax_from-lt (fmax N x y) ys c h in
      (
        le_lt_trans x (fmax N x y) c (le-fmax_left x y) top,
        (le_lt_trans y (fmax N x y) c (le-fmax_right x y) top, rest),
      )

  pub lt-fmax_from :
      (x : Float) (xs : List Float) (c : Float)
      → All (λ (y : Float). lt y c ≡ true) (x ∷ xs)
      → lt (fmax_from N x xs) c ≡ true
  lt-fmax_from x [] c (h, _) = h
  lt-fmax_from x (y ∷ ys) c (h, (k, rest)) = lt-fmax_from (fmax N x y) ys c (ground arith, rest)
