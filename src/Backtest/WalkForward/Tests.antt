-- ===== src/Backtest/WalkForward/Tests.antt =====
-- The walk-forward run at four observations, trained on two and tested on one.
use protocol_monitor.Common.{ℕ, ◌≡◌, ◌*◌, List, [], ◌∷◌, length, ok, arith}
use protocol_monitor.Common.Int.{ℤ, pos}
use protocol_monitor.Numbers.Fixed.{fixed, fixed-IsOrdered}
use protocol_monitor.Backtest.WalkForward.{WalkForwardFold, run_walk_forward}
use protocol_monitor.Backtest.WalkForward.Folds.{IsWalk, run_walk_forward-IsWalk}

-- The score of a parameter is its product with the length of the window.
abbrev length_score : List ℕ → ℕ → ℤ
length_score train p = pos (p * length train)

abbrev length_times : List ℕ → ℕ → ℕ
length_times test p = p * length test

run_walk_forward-IsWalk_example :
    (fs : List (WalkForwardFold fixed ℕ ℕ)) × (run_walk_forward fixed 2 1 length_score length_times
        (7 ∷ 8 ∷ 9 ∷ 6 ∷ [])
        (3 ∷ 5 ∷ [])
      ≡ ok fs)
    × IsWalk fixed 2 1 length_score length_times fixed-IsOrdered
        (7 ∷ 8 ∷ 9 ∷ 6 ∷ [])
        3
        (5 ∷ [])
        2
        fs
run_walk_forward-IsWalk_example =
    run_walk_forward-IsWalk fixed 2 1 length_score length_times fixed-IsOrdered (7 ∷ 8 ∷ 9 ∷ 6 ∷ [])
      3 (5 ∷ []) (omega arith) (omega arith)
