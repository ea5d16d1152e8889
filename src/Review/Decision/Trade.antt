-- ===== src/Review/Decision/Trade.antt =====
-- The checks of a trade on its own prices and on the current price.
use protocol_monitor.Common.{
  String, Bool, true, false, not, ◌&&◌, ◌||◌, Option, none, some, List, [], ◌∷◌, ◌++◌,
  if◌then◌else◌,
}
use protocol_monitor.Numbers.{Numbers, nought, fabs, fmax}
use protocol_monitor.Backtest.Engine.{Direction, long, short}
use protocol_monitor.Review.Decision.{LlmDecision, ExecutionMode, at_market, at_limit, at_stop}

-- An argument of any type: a float, a bool, or a value that `float` does not read.
pub data Argument (N : Numbers) : Type 0 where
  number : N.Float → Argument N
  flag unreadable : Argument N

pub data ExecutionError : Type 0 where
  not_positive_finite : String → ExecutionError
  zone_reversed entry_outside : ExecutionError
  order_broken second_target_broken : Direction → ExecutionError
  position_too_large : ExecutionError
  price_outside_zone : ExecutionError
  zone_on_wrong_side : Direction → ExecutionMode → ExecutionError
  entry_not_executable : ExecutionMode → ExecutionError
  price_not_between : Direction → ExecutionError
  infinite_risk rr_too_low : ExecutionError

-- The fields of a trade that the checks read.
pub record Trade (N : Numbers) : Type 0 where
  pub direction : Direction
  pub mode : ExecutionMode
  pub entry : N.Float
  pub zone_low : N.Float
  pub zone_high : N.Float
  pub stop : N.Float
  pub tp1 : N.Float
  pub tp2 : Option N.Float
  pub position_r : N.Float

-- The arguments of the checks.
pub record Arguments (N : Numbers) : Type 0 where
  pub current_price : Argument N
  pub min_rr : Argument N
  pub max_position_r : Argument N

abbrev pub issue_if : Bool → ExecutionError → List ExecutionError
issue_if true e = e ∷ []
issue_if false e = []

module _ (N : Numbers) where
  open N use {Float, lit, sub, mul, div, lt, le, round}

  -- `math.isclose(a, b, rel_tol=1e-9, abs_tol=1e-8)` of finite floats.
  abbrev pub is_close : Float → Float → Bool
  is_close a b =
      le (fabs N (sub a b)) (fmax N (mul (lit 1 9) (fmax N (fabs N a) (fabs N b))) (lit 1 8))

  abbrev pub trade_from :
      Option Float
      → Option Float
      → Direction
      → ExecutionMode
      → Float
      → Float
      → Float
      → Float
      → Float
      → Option (Trade N)
  trade_from none tp2 direction mode entry low high stop tp1 = none
  trade_from (some position_r) tp2 direction mode entry low high stop tp1 = some (record {
    direction = direction;
    mode = mode;
    entry = entry;
    zone_low = low;
    zone_high = high;
    stop = stop;
    tp1 = tp1;
    tp2 = tp2;
    position_r = position_r;
  })

  -- The fields of a trade, if none of those compared is None.
  unfoldable pub trade_of : LlmDecision N → Option (Trade N)
  trade_of d = elim d.direction [
    | none ↦ none
    | some direction ↦ elim d.execution_mode [
      | none ↦ none
      | some mode ↦ elim d.entry [
        | none ↦ none
        | some entry ↦ elim d.entry_zone_low [
          | none ↦ none
          | some low ↦ elim d.entry_zone_high [
            | none ↦ none
            | some high ↦ elim d.stop_loss [
              | none ↦ none
              | some stop ↦ elim d.tp1 [
                | none ↦ none
                | some tp1 ↦ trade_from d.position_r d.tp2 direction mode entry low high stop tp1
              ]
            ]
          ]
        ]
      ]
    ]
  ]

  unfoldable pub zone_issues : Trade N → List ExecutionError
  zone_issues t =
      issue_if (lt t.zone_high t.zone_low) zone_reversed
      ++ issue_if (not (le t.zone_low t.entry && le t.entry t.zone_high)) entry_outside

  abbrev pub is_ordered : Direction → Trade N → Bool
  is_ordered long t =
      lt t.stop t.zone_low
      && (le t.zone_low t.entry && (le t.entry t.zone_high && lt t.zone_high t.tp1))
  is_ordered short t =
      lt t.zone_high t.stop
      && (le t.entry t.zone_high && (le t.zone_low t.entry && lt t.tp1 t.zone_low))

  abbrev pub is_further : Direction → Float → Option Float → Bool
  is_further direction tp1 none = true
  is_further long tp1 (some tp2) = lt tp1 tp2
  is_further short tp1 (some tp2) = lt tp2 tp1

  -- Lines 229 to 246.
  unfoldable pub order_issues : Trade N → List ExecutionError
  order_issues t =
      issue_if (not (is_ordered t.direction t)) (order_broken t.direction)
      ++ issue_if (not (is_further t.direction t.tp1 t.tp2)) (second_target_broken t.direction)

  unfoldable pub position_issues : Trade N → Option Float → List ExecutionError
  position_issues t none = []
  position_issues t (some maximum) = issue_if (lt maximum t.position_r) position_too_large

  -- The price at which the trade executes.
  abbrev pub execution_price : Trade N → ExecutionMode → Direction → Float → Float
  execution_price t at_market direction current = current
  execution_price t at_limit long current = t.zone_high
  execution_price t at_limit short current = t.zone_low
  execution_price t at_stop long current = t.zone_high
  execution_price t at_stop short current = t.zone_low

  abbrev pub price_of : Trade N → Float → Float
  price_of t current = execution_price t t.mode t.direction current

  -- Whether the current price allows the mode.
  abbrev pub is_placed : Trade N → ExecutionMode → Direction → Float → Bool
  is_placed t at_market direction current = le t.zone_low current && le current t.zone_high
  is_placed t at_limit long current = lt t.zone_high current
  is_placed t at_limit short current = lt current t.zone_low
  is_placed t at_stop long current = lt current t.zone_low
  is_placed t at_stop short current = lt t.zone_high current

  abbrev pub placing_error : ExecutionMode → Direction → ExecutionError
  placing_error at_market direction = price_outside_zone
  placing_error at_limit direction = zone_on_wrong_side direction at_limit
  placing_error at_stop direction = zone_on_wrong_side direction at_stop

  -- Lines 254 to 289, for a current price.
  unfoldable pub price_issues : Trade N → Float → List ExecutionError
  price_issues t current =
      issue_if (not (is_placed t t.mode t.direction current)) (placing_error t.mode t.direction)
      ++ issue_if (not (is_close t.entry (price_of t current))) (entry_not_executable t.mode)

  abbrev pub risk_distance : Direction → Float → Float → Float
  risk_distance long price stop = sub price stop
  risk_distance short price stop = sub stop price

  abbrev pub reward_distance : Direction → Float → Float → Float
  reward_distance long price tp1 = sub tp1 price
  reward_distance short price tp1 = sub price tp1

  abbrev pub is_between : Direction → Float → Float → Float → Bool
  is_between long stop price tp1 = lt stop price && lt price tp1
  is_between short stop price tp1 = lt price stop && lt tp1 price

  -- `computed_rr`, for an execution price.
  unfoldable pub rr_at : Trade N → Float → Option Float
  rr_at t price =
      let risk = risk_distance t.direction price t.stop in
      let reward = reward_distance t.direction price t.tp1 in
      if not (is_between t.direction t.stop price t.tp1)
        || (le risk (nought N) || le reward (nought N))
      then none
      else some (div reward risk)

  unfoldable pub rr_of : Trade N → Option Float → Option Float
  rr_of t none = none
  rr_of t (some current) = rr_at t (price_of t current)
