-- ===== src/Review/Decision/Execution/Sound.antt =====
-- A trade without an error is executable.
use protocol_monitor.Common.{
  ◌≡◌, refl, String, Bool, true, false, not, Option, none, some, List, [], ◌∷◌, ◌++◌, if◌then◌else◌,
  arith,
}
use protocol_monitor.Numbers.{Numbers}
use protocol_monitor.Review.Decision.{LlmDecision}
use protocol_monitor.Review.Decision.Contract.{IsTrade}
use protocol_monitor.Review.Decision.Trade.{
  ExecutionError, infinite_risk, rr_too_low, order_broken, second_target_broken,
  entry_not_executable, position_too_large, Trade, issue_if, is_close, trade_of, zone_issues,
  is_ordered, is_further, order_issues, position_issues, price_of, is_placed, placing_error,
  price_issues, risk_distance, reward_distance, is_between, rr_at, rr_of,
}
use protocol_monitor.Review.Decision.Execution.{argument_issues, rr_issues, errors_with}

both_empty {ℓ} : {A : Type ℓ} (xs ys : List A) → xs ++ ys ≡ [] → (xs ≡ []) × (ys ≡ [])
both_empty [] ys h = (refl, h)
both_empty (x ∷ xs) ys h = absurd (ground arith)

issue_if-none : (b : Bool) (e : ExecutionError) → issue_if b e ≡ [] → b ≡ false
issue_if-none true e h = absurd (ground arith)
issue_if-none false e h = refl

module _ (N : Numbers) where
  open N use {Float, sub, div, lt, le, round}

  pub IsTrade-trade_of : (d : LlmDecision N) → IsTrade N d → (t : Trade N) × (trade_of N d ≡ some t)
  unfolding trade_of
  IsTrade-trade_of d is =
      rw
        (
          is.direction.1, is.mode.1, is.entry.1, is.low.1, is.high.1, is.stop.1, is.target.1,
          is.position.1,
        )
        (_, refl)

  module _ (is_finite : Float → Bool) where
    some_argument :
        (name : String) (o : Option Float)
        → argument_issues N is_finite name o ≡ []
        → (x : Float) × (o ≡ some x)
    some_argument name none h = absurd (ground arith)
    some_argument name (some x) h = (x, refl)

    -- A trade that may be executed at the price `current`: its prices are in order around its zone,
    -- its size is within the maximum, its mode fits the current price, its entry is the executable
    -- price, and the reward there is at least `minimum` times the risk.
    pub record IsExecutable (t : Trade N) (current minimum maximum rr : Float) : Type 0 where
      pub ordered : is_ordered N t.direction t ≡ true
      pub further : is_further N t.direction t.tp1 t.tp2 ≡ true
      pub sized : lt maximum t.position_r ≡ false
      pub placed : is_placed N t t.mode t.direction current ≡ true
      pub at_entry : is_close N t.entry (price_of N t current) ≡ true
      pub between : is_between N t.direction t.stop (price_of N t current) t.tp1 ≡ true
      pub ratio :
          rr
          ≡ div
              (reward_distance N t.direction (price_of N t current) t.tp1)
              (risk_distance N t.direction (price_of N t current) t.stop)
      pub rewarding : lt rr minimum ≡ false

    rr_at-between :
        (t : Trade N) (price rr : Float)
        → rr_at N t price ≡ some rr
        → (is_between N t.direction t.stop price t.tp1 ≡ true)
          × (rr
              ≡ div
                  (reward_distance N t.direction price t.tp1)
                  (risk_distance N t.direction price t.stop))
    unfolding rr_at
    rr_at-between t price rr h = (ground arith, ground arith)

    soft :
        (x minimum : Float)
        → (if not (is_finite x) then infinite_risk ∷ [] else issue_if (lt x minimum) rr_too_low)
          ≡ []
        → issue_if (lt x minimum) rr_too_low ≡ []
    soft x minimum h = ground arith

    rr_issues-none :
        (t : Trade N) (rr : Option Float) (minimum : Float)
        → rr_issues N is_finite t rr (some minimum) ≡ []
        → (x : Float) × (rr ≡ some x) × (lt x minimum ≡ false)
    unfolding rr_issues
    rr_issues-none t none minimum h = absurd (ground arith)
    rr_issues-none t (some x) minimum h =
        (x, refl, issue_if-none (lt x minimum) rr_too_low (soft x minimum h))

    not_false : (b : Bool) (e : ExecutionError) → issue_if (not b) e ≡ [] → b ≡ true
    not_false true e h = refl
    not_false false e h = absurd (ground arith)

    order_issues-none :
        (t : Trade N)
        → order_issues N t ≡ []
        → (is_ordered N t.direction t ≡ true) × (is_further N t.direction t.tp1 t.tp2 ≡ true)
    unfolding order_issues
    order_issues-none t h =
        let ordered = not (is_ordered N t.direction t) in
        let further = not (is_further N t.direction t.tp1 t.tp2) in
        let (first, second) =
          both_empty (issue_if ordered (order_broken t.direction))
            (issue_if further (second_target_broken t.direction)) h in
        (
          not_false _ (order_broken t.direction) first,
          not_false _ (second_target_broken t.direction) second,
        )

    price_issues-none :
        (t : Trade N) (current : Float)
        → price_issues N t current ≡ []
        → (is_placed N t t.mode t.direction current ≡ true)
          × (is_close N t.entry (price_of N t current) ≡ true)
    unfolding price_issues
    price_issues-none t current h =
        let placed = not (is_placed N t t.mode t.direction current) in
        let close = not (is_close N t.entry (price_of N t current)) in
        let (first, second) =
          both_empty (issue_if placed (placing_error N t.mode t.direction))
            (issue_if close (entry_not_executable t.mode)) h in
        (
          not_false _ (placing_error N t.mode t.direction) first,
          not_false _ (entry_not_executable t.mode) second,
        )

    position_issues-none :
        (t : Trade N) (maximum : Float)
        → position_issues N t (some maximum) ≡ []
        → lt maximum t.position_r ≡ false
    unfolding position_issues
    position_issues-none t maximum h = issue_if-none (lt maximum t.position_r) position_too_large h

    -- Without an error the three arguments are positive and finite and the trade is executable.
    abbrev pub Sound : Trade N → Option Float → Option Float → Option Float → Type 0
    Sound t current minimum maximum =
        (c : Float) × (m : Float) × (x : Float) × (rr : Float) × (current ≡ some c)
        × (minimum ≡ some m)
        × (maximum ≡ some x)
        × (rr_of N t (some c) ≡ some rr)
        × IsExecutable t c m x rr

    pub errors_with-Sound :
        (t : Trade N) (current minimum maximum : Option Float)
        → errors_with N is_finite t current minimum maximum ≡ []
        → Sound t current minimum maximum
    unfolding rr_of
    errors_with-Sound t none minimum maximum h = absurd (ground arith)
    errors_with-Sound t (some c) none maximum h = absurd (ground arith)
    errors_with-Sound t (some c) (some m) none h = absurd (ground arith)
    errors_with-Sound t (some c) (some m) (some x) h =
        let rr = rr_of N t (some c) in
        let market = price_issues N t c ++ rr_issues N is_finite t rr (some m) in
        let position = position_issues N t (some x) in
        let (_, h1) = both_empty (zone_issues N t) (order_issues N t ++ (position ++ market)) h in
        let (order, h2) = both_empty (order_issues N t) (position ++ market) h1 in
        let (size, h3) = both_empty position market h2 in
        let (price, rate) =
          both_empty (price_issues N t c) (rr_issues N is_finite t rr (some m)) h3 in
        let (ordered, further) = order_issues-none t order in
        let (placed, at_entry) = price_issues-none t c price in
        let (ratio, e_rr, enough) = rr_issues-none t rr m rate in
        let (between, e_ratio) = rr_at-between t (price_of N t c) ratio e_rr in
        (
          c,
          m,
          x,
          ratio,
          refl,
          refl,
          refl,
          e_rr,
          record {
            ordered = ordered;
            further = further;
            sized = position_issues-none t x size;
            placed = placed;
            at_entry = at_entry;
            between = between;
            ratio = e_ratio;
            rewarding = enough;
          },
        )
