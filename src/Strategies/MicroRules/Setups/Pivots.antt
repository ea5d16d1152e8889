-- ===== src/Strategies/MicroRules/Setups/Pivots.antt =====
-- The confirmed low pivots of the bars, in their order.
use protocol_monitor.Common.{
  ℕ, zero, suc, ◌+◌, ◌-◌, ◌≤◌, ◌<◌, ◌≡◌, refl, Bool, true, Bool-cases, Option-cases, inl, inr,
  Option, some, List, [], ◌∷◌, map, keep, get_elem?, slice, All, arith,
}
use mathlib.Core.Path.{subst}
use mathlib.Core.Option.{some-injective}
use protocol_monitor.Numbers.{Numbers, fmin_from}
use protocol_monitor.Market.Kline.{Kline}
use protocol_monitor.Strategies.MicroRules.{CryptoMicroRuleConfig}
use protocol_monitor.Strategies.MicroRules.Numeric.{collect_up}
use protocol_monitor.Strategies.MicroRules.Setups.{
  ConfirmedPivot, low_side, side_value, count_equal, extreme, is_extreme, pivot_at,
  confirmed_pivots,
}

module _ {ℓ κ} {A : Type ℓ} (P : A → Type κ) where
  pub All-get_elem? : (xs : List A) (i : ℕ) (x : A) → All P xs → get_elem? xs i ≡ some x → P x
  All-get_elem? [] i x h e = absurd (ground arith)
  All-get_elem? (y ∷ ys) zero x (h, hs) e = subst P (some-injective _ _ e) h
  All-get_elem? (y ∷ ys) (suc i) x (h, hs) e = All-get_elem? ys i x hs e

get_elem?-map {ℓ κ} :
    {A : Type ℓ} {B : Type κ} (f : A → B) (xs : List A) (i : ℕ) (y : B)
    → get_elem? (map f xs) i ≡ some y
    → (x : A) × (get_elem? xs i ≡ some x) × (y ≡ f x)
get_elem?-map f [] i y e = absurd (ground arith)
get_elem?-map f (x ∷ xs) zero y e = (x, refl, ground arith)
get_elem?-map f (x ∷ xs) (suc i) y e = get_elem?-map f xs i y e

module _ (N : Numbers) where
  open N use {Float, sub, le, eq}

  -- The pivots stand at indices that rise, the first at `low` or above.
  abbrev pub IsAscending : ℕ → List (ConfirmedPivot N) → Type 0
  IsAscending low [] = Unit
  IsAscending low (p ∷ ps) = (low ≤ p.index) × IsAscending (p.index + 1) ps

  IsAscending-weaken :
      (low high : ℕ) (ps : List (ConfirmedPivot N))
      → low ≤ high
      → IsAscending high ps
      → IsAscending low ps
  IsAscending-weaken low high [] h k = tt
  IsAscending-weaken low high (p ∷ ps) h (k, ks) = (omega arith, ks)

  pub keep-IsAscending :
      (test : ConfirmedPivot N → Bool) (low : ℕ) (ps : List (ConfirmedPivot N))
      → IsAscending low ps
      → IsAscending low (keep test ps)
  keep-IsAscending test low [] h = tt
  keep-IsAscending test low (p ∷ ps) (h, hs) = elim (Bool-cases (test p)) [
    | inl e ↦ rw e (h, keep-IsAscending test (p.index + 1) ps hs)
    | inr e ↦ rw e (
        IsAscending-weaken low (p.index + 1) (keep test ps) (omega arith)
          (keep-IsAscending test (p.index + 1) ps hs))
  ]

  IsAscending-above :
      (low i : ℕ) (ps : List (ConfirmedPivot N)) (p : ConfirmedPivot N)
      → IsAscending low ps
      → get_elem? ps i ≡ some p
      → low ≤ p.index
  IsAscending-above low i [] p h e = absurd (ground arith)
  IsAscending-above low zero (q ∷ qs) p (h, hs) e = ground arith
  IsAscending-above low (suc i) (q ∷ qs) p (h, hs) e =
      omega (arith, IsAscending-above (q.index + 1) i qs p hs e)

  pub IsAscending-lt :
      (low i j : ℕ) (ps : List (ConfirmedPivot N)) (p q : ConfirmedPivot N)
      → IsAscending low ps
      → i < j
      → get_elem? ps i ≡ some p
      → get_elem? ps j ≡ some q
      → p.index < q.index
  IsAscending-lt low i j [] p q h k e d = absurd (ground arith)
  IsAscending-lt low i zero (x ∷ xs) p q h k e d = absurd (omega arith)
  IsAscending-lt low zero (suc j) (x ∷ xs) p q (h, hs) k e d =
      ground (arith, IsAscending-above (x.index + 1) j xs q hs d)
  IsAscending-lt low (suc i) (suc j) (x ∷ xs) p q (h, hs) k e d =
      IsAscending-lt (x.index + 1) i j xs p q hs (omega arith) e d

  -- The value is the least of the values, and stands among them once.
  abbrev IsLowest : Float → List Float → Type 0
  IsLowest value values =
      (x : Float) × (xs : List Float) × (values ≡ x ∷ xs)
      × (eq value (fmin_from N x xs) ≡ true)
      × (count_equal N value values ≡ 1)

  is_extreme-IsLowest :
      (value : Float) (values : List Float)
      → is_extreme N value values (extreme N low_side values) ≡ true
      → IsLowest value values
  is_extreme-IsLowest value [] h = absurd (ground arith)
  is_extreme-IsLowest value (x ∷ xs) h = (x, xs, refl, ground arith, ground arith)

  module _ (bars : List (Kline N)) (config : CryptoMicroRuleConfig N) where
    abbrev lows_of : List Float
    lows_of = map (side_value N low_side) bars

    -- The bars around an index, as many as the pivot has on its left and on its right.
    abbrev around : ℕ → List Float
    around i = slice (i - config.pivot_left) (i + config.pivot_right + 1) lows_of

    -- The low of a bar that no bar around it undercuts or repeats, known so many bars later.
    pub record IsConfirmedLow (p : ConfirmedPivot N) : Type 0 where
      pub of_bar :
          (k : Kline N) × (get_elem? bars p.index ≡ some k) × (p.price ≡ side_value N low_side k)
      pub is_lowest : IsLowest p.price (around p.index)
      pub known_later : p.confirmed_index ≡ p.index + config.pivot_right

    abbrev pivot_of : ℕ → Option (ConfirmedPivot N)
    pivot_of i = pivot_at N low_side lows_of config.pivot_left config.pivot_right i

    pivot_of-IsConfirmedLow :
        (i : ℕ) (p : ConfirmedPivot N) → pivot_of i ≡ some p → (p.index ≡ i) × IsConfirmedLow p
    unfolding pivot_at
    pivot_of-IsConfirmedLow i p e = elim (Option-cases (get_elem? lows_of i)) [
      | inl missing ↦ absurd (ground (arith, missing))
      | inr (value, found) ↦
          elim (Bool-cases (is_extreme N value (around i) (extreme N low_side (around i)))) [
            | inr other ↦ absurd (ground (arith, found, other))
            | inl lowest ↦
                let (k, at_bar, low) = get_elem?-map (side_value N low_side) bars i value found in
                subst (λ (q : ConfirmedPivot N). (q.index ≡ i) × IsConfirmedLow q)
                  (some-injective _ _ (rw (pivot_at, found, lowest) at e))
                  (
                    refl,
                    record {
                      of_bar = (k, at_bar, low);
                      is_lowest = is_extreme-IsLowest value (around i) lowest;
                      known_later = refl;
                    },
                  )
          ]
    ]

    collect_up-IsConfirmedLow :
        (start n : ℕ)
        → All IsConfirmedLow (collect_up pivot_of start n)
          × IsAscending start (collect_up pivot_of start n)
    unfolding collect_up
    collect_up-IsConfirmedLow start zero = (tt, tt)
    collect_up-IsConfirmedLow start (suc n) =
        let (confirmed, ascending) = collect_up-IsConfirmedLow (suc start) n in
        let later = collect_up pivot_of (suc start) n in
        elim (Option-cases (pivot_of start)) [
          | inl missing ↦
              rw (collect_up, missing)
                (confirmed, IsAscending-weaken start (suc start) later (omega arith) ascending)
          | inr (p, found) ↦
              let (at, low) = pivot_of-IsConfirmedLow start p found in
              rw (collect_up, found)
                (
                  (low, confirmed),
                  (
                    omega arith,
                    IsAscending-weaken (p.index + 1) (suc start) later (omega arith) ascending,
                  ),
                )
        ]

    pub confirmed_pivots-IsConfirmedLow :
        (low : ℕ) × All IsConfirmedLow (confirmed_pivots N bars low_side config)
        × IsAscending low (confirmed_pivots N bars low_side config)
    unfolding confirmed_pivots
    confirmed_pivots-IsConfirmedLow =
        let (lows, ascending) = collect_up-IsConfirmedLow config.pivot_left _ in
        (config.pivot_left, lows, ascending)
