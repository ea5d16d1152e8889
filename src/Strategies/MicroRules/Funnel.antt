-- ===== src/Strategies/MicroRules/Funnel.antt =====
-- The condition funnel and the times of a candidate.
use protocol_monitor.Common.{
  ◌≤◌, ◌≡◌, ◌↔◌, refl, Bool, true, false, not, ◌&&◌, ◌||◌, Option, none, some, List, [], ◌∷◌,
  any_of, all_of, All, if◌then◌else◌, arith,
}
use protocol_monitor.Market.Kline.{DateTime}
use mathlib.Core.Option.{some-injective}
use protocol_monitor.Strategies.MicroRules.{
  passed, not_met, is_passed, is_not_met, is_insufficient, RuleCondition, required_of, status_of,
  all_passed,
}
use protocol_monitor.Strategies.MicroRules.Cm2.{latest_from}

-- Each condition has one of the three states.
all_of-any_of :
    (cs : List RuleCondition)
    → all_of (λ (c : RuleCondition). is_passed c.status) cs
      ≡ not (
          any_of (λ (c : RuleCondition). is_insufficient c.status) cs
          || any_of (λ (c : RuleCondition). is_not_met c.status) cs)
all_of-any_of [] = refl
all_of-any_of (c ∷ cs) = ground (arith, all_of-any_of cs)

-- An evaluation is `passed` exactly when every required condition passed, the test on which a
-- candidate is built; and it is `not_met` only if none of them lacks data.
pub status_of-all_passed :
    (cs : List RuleCondition)
    → ((status_of cs ≡ passed) ↔ (all_passed cs ≡ true))
      × (status_of cs ≡ not_met
          → any_of (λ (c : RuleCondition). is_insufficient c.status) (required_of cs) ≡ false)
unfolding status_of all_passed
status_of-all_passed cs = ground (arith, all_of-any_of (required_of cs))

-- A time that is given is at most `t`.
abbrev pub IsBy : DateTime → Option DateTime → Type 0
IsBy t none = Unit
IsBy t (some u) = u ≤ t

pub le-latest_from : (t : DateTime) (ts : List (Option DateTime)) → t ≤ latest_from t ts
le-latest_from t [] = omega arith
le-latest_from t (none ∷ ts) = le-latest_from t ts
le-latest_from t (some u ∷ ts) = ground (arith, le-latest_from t ts, le-latest_from u ts)

pub latest_from-le :
    (t last : DateTime) (ts : List (Option DateTime))
    → t ≤ last
    → All (IsBy last) ts
    → latest_from t ts ≤ last
latest_from-le t last [] h hs = h
latest_from-le t last (none ∷ ts) h (_, hs) = latest_from-le t last ts h hs
latest_from-le t last (some u ∷ ts) h (k, hs) =
    ground (arith, latest_from-le t last ts h hs, latest_from-le u last ts k hs)

-- What a value behind two tests says of them.
pub guarded_some {ℓ} :
    {A : Type ℓ}
    → (a b : Bool) (x c : A) → (if a && b then some x else none) ≡ some c
    → (a ≡ true) × (b ≡ true) × (x ≡ c)
guarded_some false b x c e = absurd (ground arith)
guarded_some true false x c e = absurd (ground arith)
guarded_some true true x c e = (refl, refl, some-injective _ _ e)
