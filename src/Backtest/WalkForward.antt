-- ===== src/Backtest/WalkForward.antt =====
-- `run_walk_forward` of app/backtest/walk_forward.py: parameters are chosen on a train window and
-- then frozen for the test window that follows it. The callbacks `score` and `evaluate` are
-- parameters, and the loop has fuel for one turn per observation and one more.
pub mod Folds
mod Tests
use protocol_monitor.Common.{
  ℕ, zero, suc, ◌+◌, ◌-◌, ◌≤◌, Bool, true, false, ◌||◌, Option, none, some, List, [], ◌∷◌, map,
  Result, ok, err, leb, if◌then◌else◌, length, slice, ◌==◌,
}
use protocol_monitor.Numbers.{Numbers}

-- `WalkForwardFold`
pub record WalkForwardFold (N : Numbers) (Parameter Evaluation : Type 0) : Type 0 where
  pub train_start : ℕ
  pub train_end : ℕ
  pub test_start : ℕ
  pub test_end : ℕ
  pub selected_parameter : Parameter
  pub train_score : N.Float
  pub test_evaluation : Evaluation

pub data WalkForwardError : Type 0 where
  bad_sizes no_parameters out_of_fuel : WalkForwardError

module _ (N : Numbers) {Observation Parameter Evaluation : Type 0} (train_size test_size : ℕ)
    (score : List Observation → Parameter → N.Float)
    (evaluate : List Observation → Parameter → Evaluation) where
  open N use {Float, lt}

  abbrev pub Fold : Type 0
  Fold = WalkForwardFold N Parameter Evaluation

  -- `max(ranked, key=lambda item: item[0])`: the first of the greatest.
  pub best_from : Float × Parameter → List (Float × Parameter) → Float × Parameter
  best_from m [] = m
  best_from m (x ∷ xs) = best_from (if lt m.0 x.0 then x else m) xs

  abbrev pub rank : List Observation → Parameter → Float × Parameter
  rank train parameter = (score train parameter, parameter)

  -- The body of the loop.
  pub fold_at : List Observation → Parameter → List Parameter → ℕ → Fold
  fold_at observations first others test_start =
      let train_start = test_start - train_size in
      let train = slice train_start test_start observations in
      let (train_score, selected) = best_from (rank train first) (map (rank train) others) in
      let test_end = test_start + test_size in
      record {
        train_start = train_start;
        train_end = test_start;
        test_start = test_start;
        test_end = test_end;
        selected_parameter = selected;
        train_score = train_score;
        test_evaluation = evaluate (slice test_start test_end observations) selected;
      }

  abbrev pub put_first : Fold → Option (List Fold) → Option (List Fold)
  put_first f none = none
  put_first f (some fs) = some (f ∷ fs)

  -- The loop; `none` without fuel.
  pub folds_from : ℕ → List Observation → Parameter → List Parameter → ℕ → Option (List Fold)
  folds_from zero observations first others test_start = none
  folds_from (suc fuel) observations first others test_start =
      let rest = folds_from fuel observations first others (test_start + test_size) in
      if leb (test_start + test_size) (length observations)
      then put_first (fold_at observations first others test_start) rest
      else some []

  abbrev pub finished : Option (List Fold) → Result WalkForwardError (List Fold)
  finished none = err out_of_fuel
  finished (some fs) = ok fs

  -- `run_walk_forward`
  pub run_walk_forward : List Observation → List Parameter → Result WalkForwardError (List Fold)
  run_walk_forward observations parameters =
      if train_size == 0 || test_size == 0 then err bad_sizes else elim parameters [
        | [] ↦ err no_parameters
        | first ∷ others ↦
            finished (folds_from (suc (length observations)) observations first others train_size)
      ]
