-- ===== src/Risk/Cooldown/Spacing.antt =====
-- Over any run of calls, allowed signals of one key keep their distance.
use protocol_monitor.Common.{
  ◌+◌, ◌≤◌, ◌≡◌, refl, Bool, true, false, some, List, [], ◌∷◌, if◌then◌else◌, arith, All,
  Bool-cases, inl, inr,
}
use protocol_monitor.Market.Kline.{DateTime, minutes}
use protocol_monitor.Risk.Cooldown.{
  Key, Call, key, key_eq, key_eq_iff, Sent, last_sent, remember, is_held, allowed,
}

pub last_sent-remember :
    (j k : Key) (t : DateTime) (s : Sent)
    → last_sent j (remember k t s) ≡ (if key_eq k j then some t else last_sent j s)
last_sent-remember j k t [] = refl
last_sent-remember j k t ((i, u) ∷ s) =
    ground (arith, key_eq_iff k j, key_eq_iff i k, key_eq_iff i j, last_sent-remember j k t s)

-- An allowed call is the last one sent of its key; a call that is held changes nothing, and no call
-- touches another key.
pub allowed-last_sent :
    (c : Call) (s : Sent) (j : Key)
    → let (sent, next) = allowed c s in
      last_sent j next
      ≡ (if sent then (if key_eq (key c) j then some c.now else last_sent j s) else last_sent j s)
unfolding allowed
allowed-last_sent c s j = ground (arith, last_sent-remember j (key c) c.now s)

-- The verdicts on a run of calls.
pub run : List Call → Sent → List (Call × Bool)
run [] s = []
run (c ∷ cs) s = let (sent, next) = allowed c s in (c, sent) ∷ run cs next

abbrev pub IsAfter : DateTime → List Call → Type 0
IsAfter t = All (λ (c : Call). t ≤ c.now)

-- The clock does not run backwards.
abbrev pub IsTimed : List Call → Type 0
IsTimed [] = Unit
IsTimed (c ∷ cs) = IsAfter c.now cs × IsTimed cs

-- A call of the key `k` is allowed only at its distance from `t`.
abbrev pub Keeps : Key → DateTime → Call × Bool → Type 0
Keeps k t (c, sent) = sent ≡ true → key c ≡ k → t + minutes c.minutes ≤ c.now

abbrev pub IsSpaced : List (Call × Bool) → Type 0
IsSpaced [] = Unit
IsSpaced ((c, true) ∷ rest) = All (Keeps (key c) c.now) rest × IsSpaced rest
IsSpaced ((c, false) ∷ rest) = IsSpaced rest

-- The key was last sent at `t` or later.
abbrev WasSent : Key → DateTime → Sent → Type 0
WasSent k t s = (u : DateTime) × (last_sent k s ≡ some u) × (t ≤ u)

allowed-WasSent :
    (c : Call) (s : Sent) (k : Key) (t : DateTime)
    → t ≤ c.now
    → WasSent k t s
    → WasSent k t (allowed c s).1 × Keeps k t (c, (allowed c s).0)
unfolding allowed
allowed-WasSent c s k t after (u, e, le) = elim (Bool-cases (is_held c (last_sent (key c) s))) [
  | inl held ↦ rw held ((u, e, le), λ sent same. cc)
  | inr free ↦ rw free (
    elim (Bool-cases (key_eq (key c) k)) [
      | inl same ↦ (c.now, ground (arith, last_sent-remember k (key c) c.now s), after)
      | inr other ↦ (u, ground (arith, last_sent-remember k (key c) c.now s), le)
    ],
    λ sent same. ground arith,
  )
]

allowed_sent :
    (c : Call) (s : Sent) → (allowed c s).0 ≡ true → WasSent (key c) c.now (allowed c s).1
allowed_sent c s sent =
    (c.now, ground (arith, allowed-last_sent c s (key c), key_eq_iff (key c) (key c)), omega arith)

IsSpaced-cons :
    (c : Call) (sent : Bool) (rest : List (Call × Bool))
    → (sent ≡ true → All (Keeps (key c) c.now) rest)
    → IsSpaced rest
    → IsSpaced ((c, sent) ∷ rest)
IsSpaced-cons c true rest h k = (h refl, k)
IsSpaced-cons c false rest h k = k

run-Keeps :
    (cs : List Call) (s : Sent) (k : Key) (t : DateTime)
    → IsAfter t cs
    → WasSent k t s
    → All (Keeps k t) (run cs s)
unfolding run
run-Keeps [] s k t after w = tt
run-Keeps (c ∷ cs) s k t (now, after) w =
    let (next, keeps) = allowed-WasSent c s k t now w in
    (keeps, run-Keeps cs (allowed c s).1 k t after next)

-- Whatever was sent before, over a run of calls whose clock does not run backwards any two allowed
-- calls with one key are at least as far apart as the later one asks.
pub run-IsSpaced : (cs : List Call) (s : Sent) → IsTimed cs → IsSpaced (run cs s)
unfolding run
run-IsSpaced [] s h = tt
run-IsSpaced (c ∷ cs) s (after, timed) =
    let (sent, next) = allowed c s in
    IsSpaced-cons c sent (run cs next)
      (λ yes_sent. run-Keeps cs next (key c) c.now after (allowed_sent c s yes_sent))
      (run-IsSpaced cs next timed)
