-- ===== src/Backtest/Orb/Replay.antt =====
-- The replay knows nothing of later bars.
use protocol_monitor.Common.{
  ℕ, suc, ◌+◌, ◌≤◌, ◌<◌, ◌≡◌, refl, sym, ap, ◌∙◌, Bool-cases, inl, inr, Option, none, some, List,
  [], ◌∷◌, ◌++◌, All, length, arith,
}
use protocol_monitor.Numbers.{Numbers}
use protocol_monitor.Market.Kline.{Kline, DateTime}
use protocol_monitor.Backtest.Engine.{EntryIntent}
use protocol_monitor.Strategies.OrbRetest.{OrbRetestConfig, Row, Clock, OrbSignal}
use protocol_monitor.Backtest.Orb.{
  ReplayState, was_seen, take_signal, replay_bar, replay_from, nothing_seen, build_orb_intents,
}

append_assoc {ℓ} : {A : Type ℓ} (xs ys zs : List A) → (xs ++ ys) ++ zs ≡ xs ++ (ys ++ zs)
append_assoc [] ys zs = refl
append_assoc (x ∷ xs) ys zs = ap (◌∷◌ x) (append_assoc xs ys zs)

All-append {ℓ κ} :
    {A : Type ℓ} (P : A → Type κ) (xs ys : List A) → All P xs → All P ys → All P (xs ++ ys)
All-append P [] ys h k = k
All-append P (x ∷ xs) ys (h, hs) k = (h, All-append P xs ys hs k)

All-weaken {ℓ κ} :
    {A : Type ℓ} (P Q : A → Type κ) (xs : List A) → ((a : A) → P a → Q a) → All P xs → All Q xs
All-weaken P Q [] f h = tt
All-weaken P Q (x ∷ xs) f (h, hs) = (f x h, All-weaken P Q xs f hs)

module _ (N : Numbers) (clock : Clock) (mean : List N.Float → N.Float) (config : OrbRetestConfig N)
    (previous_closes sector_relative : ℕ → Option N.Float) (risk_fraction : N.Float) where
  -- The bar that fills an intent: at or after `start`, before `end`.
  abbrev pub IsWithin : ℕ → ℕ → ℕ × EntryIntent N → Type 0
  IsWithin start end intent = (start ≤ intent.0) × (intent.0 < end)

  abbrev from : ReplayState N → ℕ → List (Kline N) → List (ℕ × EntryIntent N)
  from = replay_from N clock mean config previous_closes sector_relative risk_fraction

  abbrev intents : List (Kline N) → List (ℕ × EntryIntent N)
  intents = build_orb_intents N clock mean config previous_closes sector_relative risk_fraction

  widen :
      (start end start_too end_too : ℕ) (xs : List (ℕ × EntryIntent N))
      → start_too ≤ start
      → end ≤ end_too
      → All (IsWithin start end) xs
      → All (IsWithin start_too end_too) xs
  widen start end start_too end_too xs low high h =
      All-weaken (IsWithin start end) (IsWithin start_too end_too) xs
        (λ x k. (omega (arith, k.0), omega (arith, k.1))) h

  take_signal-IsWithin :
      (index : ℕ) (rows : List (Row N)) (seen : List DateTime) (s : Option (OrbSignal N))
      → All
          (IsWithin index (suc index))
          (take_signal N clock mean config previous_closes sector_relative risk_fraction index rows
            seen s).1
  take_signal-IsWithin index rows seen none = tt
  take_signal-IsWithin index rows seen (some s) = elim (Bool-cases (was_seen s.signal_time seen)) [
    | inl known ↦ rw known tt
    | inr fresh ↦ rw fresh ((omega arith, omega arith), tt)
  ]

  replay_bar-IsWithin :
      (state : ReplayState N) (index : ℕ) (bar : Kline N)
      → All
          (IsWithin index (suc index))
          (replay_bar N clock mean config previous_closes sector_relative risk_fraction state index
            bar).1
  unfolding replay_bar
  replay_bar-IsWithin state index bar = take_signal-IsWithin index _ state.seen _

  replay_from-IsWithin :
      (state : ReplayState N) (index : ℕ) (bars : List (Kline N))
      → All (IsWithin index (index + length bars)) (from state index bars)
  unfolding replay_from
  replay_from-IsWithin state index [] = tt
  replay_from-IsWithin state index (bar ∷ bars) =
      let (next, found) =
        replay_bar N clock mean config previous_closes sector_relative risk_fraction state index
          bar in
      All-append (IsWithin index (index + suc (length bars))) found (from next (suc index) bars)
        (widen index (suc index) index (index + suc (length bars)) found (omega arith) (omega arith)
          (replay_bar-IsWithin state index bar))
        (widen (suc index) (suc index + length bars) index (index + suc (length bars))
          (from next (suc index) bars) (omega arith) (omega arith)
          (replay_from-IsWithin next (suc index) bars))

  replay_from-append :
      (state : ReplayState N) (index : ℕ) (bars later : List (Kline N))
      → (rest : List (ℕ × EntryIntent N)) × (from state index (bars ++ later)
          ≡ from state index bars ++ rest)
        × All (IsWithin (index + length bars) (index + length bars + length later)) rest
  unfolding replay_from
  replay_from-append state index [] later = (
    from state index later,
    refl,
    widen index (index + length later) (index + 0) (index + 0 + length later)
        (from state index later) (omega arith) (omega arith)
        (replay_from-IsWithin state index later),
  )
  replay_from-append state index (bar ∷ bars) later =
      let (moved, found) =
        replay_bar N clock mean config previous_closes sector_relative risk_fraction state index
          bar in
      let (rest, same, within) = replay_from-append moved (suc index) bars later in
      (
        rest,
        ap (◌++◌ found) same ∙ sym (append_assoc found (from moved (suc index) bars) rest),
        widen (suc index + length bars) (suc index + length bars + length later)
            (index + suc (length bars)) (index + suc (length bars) + length later) rest
            (omega arith) (omega arith) within,
      )

  -- The intents of the bars so far stay as they are when later bars come: these only add intents,
  -- each at one of the later bars; and every intent so far stands at one of the bars so far.
  pub build_orb_intents-append :
      (bars later : List (Kline N))
      → All
          (IsWithin 0 (length bars))
          (build_orb_intents N clock mean config previous_closes sector_relative risk_fraction bars)
        × ((rest : List (ℕ × EntryIntent N)) × (build_orb_intents N clock mean config
                previous_closes sector_relative risk_fraction
                (bars ++ later)
              ≡ build_orb_intents N clock mean config previous_closes sector_relative risk_fraction
                  bars
                ++ rest)
            × All (IsWithin (length bars) (length bars + length later)) rest)
  unfolding build_orb_intents
  build_orb_intents-append bars later =
      let start = nothing_seen N clock mean config previous_closes sector_relative risk_fraction in
      let n = length bars in
      let (rest, same, within) = replay_from-append start 0 bars later in
      (
        widen 0 (0 + n) 0 n (from start 0 bars) (omega arith) (omega arith)
            (replay_from-IsWithin start 0 bars),
        (
          rest,
          same,
          widen (0 + n) (0 + n + length later) n (n + length later) rest (omega arith) (omega arith)
              within,
        ),
      )
