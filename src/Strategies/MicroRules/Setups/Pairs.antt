-- ===== src/Strategies/MicroRules/Setups/Pairs.antt =====
-- The pair of near low pivots that were confirmed before a bar.
use protocol_monitor.Common.{
  ℕ, ◌<◌, ◌≡◌, refl, true, Bool-cases, inl, inr, Option, none, some, List, keep, get_elem?, ltb,
  ltb→lt, arith,
}
use mathlib.Core.Path.{subst}
use mathlib.Core.Option.{some-injective}
use protocol_monitor.Numbers.{Numbers, fabs}
use protocol_monitor.Market.Kline.{Kline}
use protocol_monitor.Strategies.MicroRules.{CryptoMicroRuleConfig}
use protocol_monitor.Strategies.MicroRules.Numeric.Laws.{
  search_down-IsFoundAt, All-keep, All-keep_of,
}
use protocol_monitor.Strategies.MicroRules.Setups.{
  ConfirmedPivot, low_side, confirmed_pivots, if_near, pair_below, latest_equal_low_pair,
}
use protocol_monitor.Strategies.MicroRules.Setups.Pivots.{
  All-get_elem?, keep-IsAscending, IsAscending-lt, IsConfirmedLow, confirmed_pivots-IsConfirmedLow,
}

module _ (N : Numbers) where
  open N use {Float, sub, le}

  module _ (bars : List (Kline N)) (config : CryptoMicroRuleConfig N) where
    -- The two lows of a pair that is near and known before bar `i`: different lows of the bars, `a`
    -- before `b`, confirmed before `i`, and at most the tolerance apart.
    pub record IsNearPair (tolerance : Float) (i : ℕ) (a b : ConfirmedPivot N) : Type 0 where
      pub left_low : IsConfirmedLow N bars config a
      pub right_low : IsConfirmedLow N bars config b
      pub in_order : a.index < b.index
      pub left_known : a.confirmed_index < i
      pub right_known : b.confirmed_index < i
      pub is_near : le (fabs N (sub b.price a.price)) tolerance ≡ true

    abbrev known_before : ℕ → List (ConfirmedPivot N)
    known_before i =
        keep (λ (p : ConfirmedPivot N). ltb p.confirmed_index i)
          (confirmed_pivots N bars low_side config)

    known_before-IsNearPair :
        (tolerance : Float) (i l r : ℕ) (a b : ConfirmedPivot N)
        → l < r
        → get_elem? (known_before i) l ≡ some a
        → get_elem? (known_before i) r ≡ some b
        → le (fabs N (sub b.price a.price)) tolerance ≡ true
        → IsNearPair tolerance i a b
    known_before-IsNearPair tolerance i l r a b lt at_l at_r near =
        let test = λ (p : ConfirmedPivot N). ltb p.confirmed_index i in
        let pivots = confirmed_pivots N bars low_side config in
        let (low, confirmed, ascending) = confirmed_pivots-IsConfirmedLow N bars config in
        let lows = All-keep_of (IsConfirmedLow N bars config) test pivots confirmed in
        let known = All-keep test pivots in
        record {
          left_low = All-get_elem? (IsConfirmedLow N bars config) (known_before i) l a lows at_l;
          right_low = All-get_elem? (IsConfirmedLow N bars config) (known_before i) r b lows at_r;
          in_order =
              IsAscending-lt N low l r (known_before i) a b
                (keep-IsAscending N test low pivots ascending) lt at_l at_r;
          left_known = ltb→lt a.confirmed_index i (
              All-get_elem? (λ (p : ConfirmedPivot N). test p ≡ true) (known_before i) l a known
                at_l);
          right_known = ltb→lt b.confirmed_index i (
              All-get_elem? (λ (p : ConfirmedPivot N). test p ≡ true) (known_before i) r b known
                at_r);
          is_near = near;
        }

    if_near-IsNearPair :
        (tolerance : Float) (i l r : ℕ) (right a b : ConfirmedPivot N)
        (left : Option (ConfirmedPivot N))
        → l < r
        → get_elem? (known_before i) l ≡ left
        → get_elem? (known_before i) r ≡ some right
        → if_near N tolerance right left ≡ some (a, b)
        → IsNearPair tolerance i a b
    if_near-IsNearPair tolerance i l r right a b none lt at_l at_r e = absurd (ground arith)
    if_near-IsNearPair tolerance i l r right a b (some left) lt at_l at_r e =
        elim (Bool-cases (le (fabs N (sub right.price left.price)) tolerance)) [
          | inr far ↦ absurd (ground (arith, far))
          | inl near ↦
              let same = some-injective _ _ (rw near at e) in
              subst
                (λ (pair : ConfirmedPivot N × ConfirmedPivot N).
                  IsNearPair tolerance i pair.0 pair.1)
                same (known_before-IsNearPair tolerance i l r left right lt at_l at_r near)
        ]

    pair_below-IsNearPair :
        (tolerance : Float) (i r : ℕ) (a b : ConfirmedPivot N) (right : Option (ConfirmedPivot N))
        → get_elem? (known_before i) r ≡ right
        → pair_below N (known_before i) tolerance r right ≡ some (a, b)
        → IsNearPair tolerance i a b
    pair_below-IsNearPair tolerance i r a b none at_r e = absurd (ground arith)
    pair_below-IsNearPair tolerance i r a b (some right) at_r e =
        let (l, (_, below, hit, _)) = search_down-IsFoundAt _ _ _ (a, b) e in
        if_near-IsNearPair tolerance i l r right a b (get_elem? (known_before i) l) (omega arith)
          refl at_r hit

    pub latest_equal_low_pair-IsNearPair :
        (tolerance : Float) (i : ℕ) (a b : ConfirmedPivot N)
        → latest_equal_low_pair N (known_before i) tolerance ≡ some (a, b)
        → IsNearPair tolerance i a b
    unfolding latest_equal_low_pair
    latest_equal_low_pair-IsNearPair tolerance i a b e =
        let (r, (_, _, hit, _)) = search_down-IsFoundAt _ _ _ (a, b) e in
        pair_below-IsNearPair tolerance i r a b (get_elem? (known_before i) r) refl hit
