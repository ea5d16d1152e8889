-- ===== src/Backtest/WalkForward/Folds.antt =====
-- The folds of a walk-forward run: their windows, what is selected, and that it is selected without
-- sight of later observations.
use protocol_monitor.Common.{
  ℕ, zero, suc, ◌+◌, ◌-◌, ◌≤◌, ◌<◌, ◌≡◌, refl, Bool-cases, inl, inr, true, false, some, List, [],
  ◌∷◌, map, ok, leb, length, slice, All, arith,
}
use mathlib.Core.Path.{subst}
use protocol_monitor.Numbers.{Numbers}
use protocol_monitor.Numbers.Laws.{IsOrdered, le_refl, le_of_lt, le_of_not_lt, not_lt_of_le}
use protocol_monitor.Backtest.WalkForward.{
  WalkForwardFold, best_from, rank, fold_at, folds_from, run_walk_forward,
}

module _ (N : Numbers) {Observation Parameter Evaluation : Type 0} (train_size test_size : ℕ)
    (score : List Observation → Parameter → N.Float)
    (evaluate : List Observation → Parameter → Evaluation) (order : IsOrdered N) where
  open N use {Float, lt, le}

  abbrev best : Float × Parameter → List (Float × Parameter) → Float × Parameter
  best = best_from N train_size test_size score evaluate

  abbrev ranked : List Observation → Parameter → Float × Parameter
  ranked = rank N train_size test_size score evaluate

  best-All :
      (P : Float × Parameter → Type 0) (m : Float × Parameter) (xs : List (Float × Parameter))
      → P m
      → All P xs
      → P (best m xs)
  unfolding best_from
  best-All P m [] h a = h
  best-All P m (x ∷ xs) h (hx, a) = elim (Bool-cases (lt m.0 x.0)) [
    | inl e ↦ rw e (best-All P x xs hx a)
    | inr e ↦ rw e (best-All P m xs h a)
  ]

  -- No score of the list exceeds that of `top`.
  abbrev Tops : Float × Parameter → List (Float × Parameter) → Float × Parameter → Type 0
  Tops m xs top = (le m.0 top.0 ≡ true) × All (λ (x : Float × Parameter). le x.0 top.0 ≡ true) xs

  le-best : (m : Float × Parameter) (xs : List (Float × Parameter)) → Tops m xs (best m xs)
  unfolding best_from
  le-best m [] = (le_refl N order m.0, tt)
  le-best m (x ∷ xs) = elim (Bool-cases (lt m.0 x.0)) [
    | inl e ↦
        let (low, all) = le-best x xs in
        let step : best x xs ≡ best m (x ∷ xs) = rw e refl in
        subst (Tops m (x ∷ xs)) step (order.le_trans _ _ _ (le_of_lt N order _ _ e) low, (low, all))
    | inr e ↦
        let (low, all) = le-best m xs in
        let step : best m xs ≡ best m (x ∷ xs) = rw e refl in
        subst (Tops m (x ∷ xs)) step
          (low, (order.le_trans _ _ _ (le_of_not_lt N order _ _ e) low, all))
  ]

  All-ranked :
      (train : List Observation) (ps : List Parameter)
      → All (λ (x : Float × Parameter). x.0 ≡ score train x.1) (map (ranked train) ps)
  All-ranked train [] = tt
  All-ranked train (p ∷ ps) = (refl, All-ranked train ps)

  All-unranked :
      (train : List Observation) (top : Float) (ps : List Parameter)
      → All (λ (x : Float × Parameter). le x.0 top ≡ true) (map (ranked train) ps)
      → All (λ (p : Parameter). lt top (score train p) ≡ false) ps
  All-unranked train top [] h = tt
  All-unranked train top (p ∷ ps) (h, hs) =
      (not_lt_of_le N order _ _ h, All-unranked train top ps hs)

  module _ (observations : List Observation) (first : Parameter) (others : List Parameter) where
    abbrev train_of : WalkForwardFold N Parameter Evaluation → List Observation
    train_of f = slice f.train_start f.train_end observations

    -- A fold whose test starts at `start`: its windows adjoin and lie within the observations, the
    -- selected parameter has the train score, which no parameter exceeds on the train window, and
    -- it is that one which is evaluated on the test window.
    pub record IsFold (start : ℕ) (f : WalkForwardFold N Parameter Evaluation) : Type 0 where
      pub trains_before : f.train_start + train_size ≡ start
      pub starts : (f.train_end ≡ start) × (f.test_start ≡ start)
      pub ends : f.test_end ≡ start + test_size
      pub in_range : f.test_end ≤ length observations
      pub has_score : f.train_score ≡ score (train_of f) f.selected_parameter
      pub is_best :
          All (λ (p : Parameter). lt f.train_score (score (train_of f) p) ≡ false) (first ∷ others)
      pub evaluates :
          f.test_evaluation
          ≡ evaluate (slice f.test_start f.test_end observations) f.selected_parameter

    -- The folds follow each other without a gap until no further test window fits.
    abbrev pub IsWalk : ℕ → List (WalkForwardFold N Parameter Evaluation) → Type 0
    IsWalk start [] = length observations < start + test_size
    IsWalk start (f ∷ fs) = IsFold start f × IsWalk (start + test_size) fs

    abbrev fold : ℕ → WalkForwardFold N Parameter Evaluation
    fold = fold_at N train_size test_size score evaluate observations first others

    fold-IsFold :
        (start : ℕ)
        → train_size ≤ start
        → start + test_size ≤ length observations
        → IsFold start (fold start)
    unfolding fold_at
    fold-IsFold start room fits =
        let train = slice (start - train_size) start observations in
        let (low, all) = le-best (ranked train first) (map (ranked train) others) in
        record {
          trains_before = omega arith;
          starts = (refl, refl);
          ends = refl;
          in_range = fits;
          has_score =
              best-All (λ (x : Float × Parameter). x.0 ≡ score train x.1) (ranked train first)
                (map (ranked train) others) refl (All-ranked train others);
          is_best = (not_lt_of_le N order _ _ low, All-unranked train _ others all);
          evaluates = refl;
        }

    folds_from-IsWalk :
        (fuel start : ℕ)
        → 0 < test_size
        → train_size ≤ start
        → 0 < fuel
        → length observations < fuel + start
        → (fs : List (WalkForwardFold N Parameter Evaluation)) × (folds_from N train_size test_size
              score evaluate fuel observations first others start
            ≡ some fs)
          × IsWalk start fs
    unfolding folds_from
    folds_from-IsWalk zero start pos room some_fuel enough = absurd (omega arith)
    folds_from-IsWalk (suc fuel) start pos room some_fuel enough =
        elim (Bool-cases (leb (start + test_size) (length observations))) [
          | inl e ↦
              let (fs, eq, walk) =
                folds_from-IsWalk fuel (start + test_size) pos (omega arith) (ground (arith, e))
                  (omega arith) in
              (fold start ∷ fs, rw (e, eq) refl, (fold-IsFold start room (ground (arith, e)), walk))
          | inr e ↦ ([], rw e refl, ground (arith, e))
        ]

  -- With a positive train size and test size and at least one parameter, the run returns folds:
  -- they follow each other without a gap from the first full train window until no further test
  -- window fits, and each selects a parameter that no other exceeds on its train window and
  -- evaluates that one on its test window.
  pub run_walk_forward-IsWalk :
      (observations : List Observation) (first : Parameter) (others : List Parameter)
      → 0 < train_size
      → 0 < test_size
      → (fs : List (WalkForwardFold N Parameter Evaluation)) × (run_walk_forward N train_size
            test_size score evaluate observations
            (first ∷ others)
          ≡ ok fs)
        × IsWalk observations first others train_size fs
  unfolding run_walk_forward
  run_walk_forward-IsWalk observations first others pos_train pos_test =
      let (fs, eq, walk) =
        folds_from-IsWalk observations first others (suc (length observations)) train_size pos_test
          (omega arith) (omega arith) (omega arith) in
      (fs, rw eq (ground arith), walk)
