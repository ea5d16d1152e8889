-- ===== src/Common/Results.antt =====
-- A value or a raised exception.
use mathlib.Core.Bool.{Bool, true, false}
use mathlib.Core.List.{List, [], ◌∷◌}
use mathlib.Core.Path.{◌≡◌, refl}
use mathlib.Core.Logic.{◌⊎◌, inl, inr}
use native.Mathlib.Omega.{arith}
use protocol_monitor.Common.Tests.{if◌then◌else◌}
use protocol_monitor.Common.Lists.{All}

pub data Result (E A : Type 0) : Type 0 where
  ok : A → Result E A
  err : E → Result E A

infixl 5 ◌>>=◌ ◌>>◌
abbrev pub ◌>>=◌ : {E A B : Type 0} → Result E A → (A → Result E B) → Result E B
ok a >>= f = f a
err e >>= f = err e

abbrev pub ◌>>◌ : {E B : Type 0} → Result E (Unit {0}) → Result E B → Result E B
m >> k = m >>= λ _. k

-- `if test: raise error`
abbrev pub raise_if : {E : Type 0} → Bool → E → Result E (Unit {0})
raise_if true e = err e
raise_if false e = ok tt

-- The tests in their order, each of which raises its error.
abbrev pub raise_first : {E A : Type 0} → List (Bool × E) → A → Result E A
raise_first [] a = ok a
raise_first ((test, e) ∷ rest) a = if test then err e else raise_first rest a

pub raise_first-ok :
    {E A : Type 0}
    → (tests : List (Bool × E)) (a b : A) → raise_first tests a ≡ ok b
    → All (λ (t : Bool × E). t.0 ≡ false) tests × (b ≡ a)
raise_first-ok [] a b h = (tt, ground arith)
raise_first-ok ((true, e) ∷ rest) a b h = absurd (ground arith)
raise_first-ok ((false, e) ∷ rest) a b h =
    let (later, same) = raise_first-ok rest a b h in ((refl, later), same)

pub Result-cases :
    {E A : Type 0} → (r : Result E A) → ((e : E) × (r ≡ err e)) ⊎ ((a : A) × (r ≡ ok a))
Result-cases (ok a) = inr (a, refl)
Result-cases (err e) = inl (e, refl)
