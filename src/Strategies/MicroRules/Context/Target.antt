-- ===== src/Strategies/MicroRules/Context/Target.antt =====
-- The target is the nearest confirmed swing beyond the close.
use protocol_monitor.Common.{
  ◌≡◌, refl, Bool, true, Bool-cases, Option-cases, inl, inr, some, List, [], ◌∷◌, keep, map,
  get_last?, All, arith,
}
use mathlib.Core.Path.{subst}
use mathlib.Core.Option.{some-injective}
use protocol_monitor.Numbers.{Numbers, fmin, fmax, fmin_from, fmax_from}
use protocol_monitor.Numbers.Laws.{
  IsOrdered, le_refl, le-fmax_left, le-fmax_right, fmin-le_left, fmin-le_right,
}
use protocol_monitor.Market.Kline.{Kline}
use protocol_monitor.Backtest.Engine.{Direction, long, short}
use protocol_monitor.Strategies.MicroRules.{CryptoMicroRuleConfig, passed}
use protocol_monitor.Strategies.MicroRules.Numeric.Laws.{All-keep}
use protocol_monitor.Strategies.MicroRules.Setups.{ConfirmedPivot, confirmed_pivots}
use protocol_monitor.Strategies.MicroRules.Context.{
  nearest, is_beyond, side_of, prices, target_among, confirmed_structure_target,
}

All-kept {ℓ κ} :
    {A : Type ℓ} (P : A → Type κ) (p : A → Bool) (xs : List A)
    → All P (keep p xs)
    → All (λ (x : A). p x ≡ true → P x) xs
All-kept P p [] h = tt
All-kept P p (x ∷ xs) h = elim (Bool-cases (p x)) [
  | inl e ↦ let (a, as_) = rw (e, keep) at h in (λ _. a, All-kept P p xs as_)
  | inr e ↦ (λ k. absurd (ground arith), All-kept P p xs (rw (e, keep) at h))
]

All-mapped {ℓ κ μ} :
    {A : Type ℓ} {B : Type κ} (P : B → Type μ) (f : A → B) (xs : List A)
    → All P (map f xs)
    → All (λ (x : A). P (f x)) xs
All-mapped P f [] h = tt
All-mapped P f (x ∷ xs) (h, hs) = (h, All-mapped P f xs hs)

module _ (N : Numbers) (laws : IsOrdered N) where
  open N use {Float, float, le}

  -- The price is as far as the target, or further.
  abbrev pub IsFurther : Direction → Float → Float → Type 0
  IsFurther long target price = le target price ≡ true
  IsFurther short target price = le price target ≡ true

  fmin_from-IsFurther :
      (x : Float) (xs : List Float) → All (IsFurther long (fmin_from N x xs)) (x ∷ xs)
  fmin_from-IsFurther x [] = (le_refl N laws x, tt)
  fmin_from-IsFurther x (y ∷ ys) =
      let (first, rest) = fmin_from-IsFurther (fmin N x y) ys in
      (
        laws.le_trans _ _ _ first (fmin-le_left N laws x y),
        (laws.le_trans _ _ _ first (fmin-le_right N laws x y), rest),
      )

  fmax_from-IsFurther :
      (x : Float) (xs : List Float) → All (IsFurther short (fmax_from N x xs)) (x ∷ xs)
  fmax_from-IsFurther x [] = (le_refl N laws x, tt)
  fmax_from-IsFurther x (y ∷ ys) =
      let (first, rest) = fmax_from-IsFurther (fmax N x y) ys in
      (
        laws.le_trans _ _ _ (le-fmax_left N laws x y) first,
        (laws.le_trans _ _ _ (le-fmax_right N laws x y) first, rest),
      )

  module _ {κ} (P : Float → Type κ) where
    All-fmin_from : (x : Float) (xs : List Float) → All P (x ∷ xs) → P (fmin_from N x xs)
    All-fmin_from x [] (h, _) = h
    All-fmin_from x (y ∷ ys) (h, (k, hs)) = elim (Bool-cases (N.lt y x)) [
      | inl e ↦ All-fmin_from (fmin N x y) ys (rw e k, hs)
      | inr e ↦ All-fmin_from (fmin N x y) ys (rw e h, hs)
    ]

    All-fmax_from : (x : Float) (xs : List Float) → All P (x ∷ xs) → P (fmax_from N x xs)
    All-fmax_from x [] (h, _) = h
    All-fmax_from x (y ∷ ys) (h, (k, hs)) = elim (Bool-cases (N.lt x y)) [
      | inl e ↦ All-fmax_from (fmax N x y) ys (rw e k, hs)
      | inr e ↦ All-fmax_from (fmax N x y) ys (rw e h, hs)
    ]

  nearest-IsFurther :
      (direction : Direction) (xs : List Float) (target : Float) (P : Float → Type 0)
      → nearest N direction xs ≡ some target
      → All P xs
      → P target × All (IsFurther direction target) xs
  nearest-IsFurther long [] target P e h = absurd (ground arith)
  nearest-IsFurther long (x ∷ xs) target P e h =
      subst (λ (t : Float). P t × All (IsFurther long t) (x ∷ xs)) (some-injective _ _ e)
        (All-fmin_from P x xs h, fmin_from-IsFurther x xs)
  nearest-IsFurther short [] target P e h = absurd (ground arith)
  nearest-IsFurther short (x ∷ xs) target P e h =
      subst (λ (t : Float). P t × All (IsFurther short t) (x ∷ xs)) (some-injective _ _ e)
        (All-fmax_from P x xs h, fmax_from-IsFurther x xs)

  -- The target for a close, among the pivots.
  pub record IsNearest (direction : Direction) (pivots : List (ConfirmedPivot N))
      (close target : Float) : Type 0 where
    pub beyond : is_beyond N direction close target ≡ true
    pub nearest_of :
        All
          (λ (p : ConfirmedPivot N).
            is_beyond N direction close p.price ≡ true → IsFurther direction target p.price)
          pivots

  target_among-IsNearest :
      (direction : Direction) (pivots : List (ConfirmedPivot N)) (close target : Float)
      → (target_among N direction pivots close).0 ≡ some target
      → ((target_among N direction pivots close).1.status ≡ passed)
        × IsNearest direction pivots close target
  target_among-IsNearest direction [] close target e = absurd (ground arith)
  target_among-IsNearest direction (p ∷ ps) close target e =
      let beyond = keep (is_beyond N direction close) (prices N (p ∷ ps)) in
      elim (Option-cases (nearest N direction beyond)) [
        | inl missing ↦ absurd (ground (arith, missing))
        | inr (found, e_found) ↦
            let same : found ≡ target = some-injective _ _ (rw (e_found, target_among) at e) in
            let (is_far, further) =
              nearest-IsFurther direction beyond target
                (λ (x : Float). is_beyond N direction close x ≡ true) (rw same at e_found)
                (All-keep (is_beyond N direction close) (prices N (p ∷ ps))) in
            (
              rw (e_found, target_among) refl,
              record {
                beyond = is_far;
                nearest_of =
                    All-mapped
                      (λ (x : Float).
                        is_beyond N direction close x ≡ true → IsFurther direction target x)
                      (λ (p : ConfirmedPivot N). p.price) (p ∷ ps)
                      (All-kept (IsFurther direction target) (is_beyond N direction close)
                        (prices N (p ∷ ps)) further);
              },
            )
      ]

  -- A target that is found passes its condition, lies beyond the last close in the direction of the
  -- trade, and no confirmed swing beyond that close is nearer.
  pub confirmed_structure_target-IsNearest :
      (bars : List (Kline N)) (direction : Direction) (config : CryptoMicroRuleConfig N)
      (target : Float)
      → (confirmed_structure_target N bars direction config).0 ≡ some target
      → ((confirmed_structure_target N bars direction config).1.status ≡ passed)
        × ((last : Kline N) × (get_last? bars ≡ some last)
            × IsNearest direction
                (confirmed_pivots N bars (side_of N direction) config)
                (float last.close)
                target)
  unfolding confirmed_structure_target
  confirmed_structure_target-IsNearest bars direction config target e =
      elim (Option-cases (get_last? bars)) [
        | inl missing ↦ absurd (ground (arith, missing))
        | inr (last, found) ↦
            let pivots = confirmed_pivots N bars (side_of N direction) config in
            let (status, near) =
              target_among-IsNearest direction pivots (float last.close) target
                (rw (found, confirmed_structure_target) at e) in
            (rw (found, confirmed_structure_target) status, (last, found, near))
      ]
