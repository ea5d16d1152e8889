-- ===== src/Strategies/OrbRetest/Trigger.antt =====
-- What a triggered signal of the retest is.
use protocol_monitor.Common.{
  ℕ, suc, ◌<◌, ◌≡◌, refl, sym, ap, Bool, true, false, ◌&&◌, Option, none, some, List, [], ◌∷◌, ◌++◌,
  get_elem?, take, leb, if◌then◌else◌, Bool-cases, Option-cases, inl, inr, arith,
}
use mathlib.Core.List.{append_assoc, append-nil}
use mathlib.Core.Path.{subst}
use mathlib.Core.Option.{some-injective}
use protocol_monitor.Numbers.{Numbers, nought}
use protocol_monitor.Numbers.Laws.{IsOrdered, IsRounded, le_of_lt}
use protocol_monitor.Backtest.Engine.{Direction, long, short}
use protocol_monitor.Strategies.OrbRetest.Broken.{IsBroken, IsBroken-suc}
use protocol_monitor.Strategies.OrbRetest.{
  OrbRetestConfig, Row, Clock, Base, OrbSignal, Watch, triggered, waiting, vwap,
  confirmation_rvol_of, level_of, is_confirmed, stop_of, risk_from, target_of, rvol_confirms,
  signal_on, next_break, signal_at, watch_from,
}

guarded {ℓ} :
    {A : Type ℓ} (a b c : Bool) (x s : A)
    → (if a && (b && c) then some x else none) ≡ some s
    → (a ≡ true) × (b ≡ true) × (c ≡ true) × (x ≡ s)
guarded false b c x s h = absurd (ground arith)
guarded true false c x s h = absurd (ground arith)
guarded true true false x s h = absurd (ground arith)
guarded true true true x s h = (refl, refl, refl, some-injective _ _ h)

module _ {N : Numbers} where
  signal_or : OrbSignal N → Watch N → OrbSignal N
  signal_or s (triggered t) = t
  signal_or s (waiting d) = s

  triggered_inj : (a b : OrbSignal N) → triggered a ≡ triggered b → a ≡ b
  unfolding signal_or
  triggered_inj a b h = ap (signal_or a) h

module _ (N : Numbers) (ordered : IsOrdered N) (rounded : IsRounded N) where
  open N use {Float, mul, lt, le}

  -- The prices of a signal are in order: stop, entry and target.
  abbrev pub AreInOrder : Direction → Float → Float → Float → Type 0
  AreInOrder long stop entry target = (lt stop entry ≡ true) × (le entry target ≡ true)
  AreInOrder short stop entry target = (lt entry stop ≡ true) × (le target entry ≡ true)

  -- The candle touches the level, up to the buffer, and closes beyond it and beyond the
  -- volume-weighted price.
  abbrev pub IsRetest : Direction → Row N → Float → Float → Float → Type 0
  IsRetest long c level buffer session_vwap =
      (le c.low (N.add level buffer) ≡ true)
      × (lt level c.close ≡ true)
      × (lt session_vwap c.close ≡ true)
  IsRetest short c level buffer session_vwap =
      (le (N.sub level buffer) c.high ≡ true)
      × (lt c.close level ≡ true)
      × (lt c.close session_vwap ≡ true)

  is_confirmed-IsRetest :
      (direction : Direction) (c : Row N) (level buffer session_vwap : Float)
      → is_confirmed N direction c level buffer session_vwap ≡ true
      → IsRetest direction c level buffer session_vwap
  is_confirmed-IsRetest long c level buffer session_vwap h = ground arith
  is_confirmed-IsRetest short c level buffer session_vwap h = ground arith

  in_order :
      (direction : Direction) (stop close reward_r : Float)
      → le (nought N) reward_r ≡ true
      → lt (nought N) (risk_from N direction close stop) ≡ true
      → AreInOrder direction stop close
          (target_of N direction close (risk_from N direction close stop) reward_r)
  in_order long stop close reward_r h risk =
      let gain = mul (N.sub close stop) reward_r in
      let nonneg =
        rounded.mul_nonneg (N.sub close stop) reward_r
          (le_of_lt N ordered (nought N) (N.sub close stop) risk) h in
      (ground (arith, rounded.sub_pos close stop), rounded.le-add close gain nonneg)
  in_order short stop close reward_r h risk =
      let gain = mul (N.sub stop close) reward_r in
      let nonneg =
        rounded.mul_nonneg (N.sub stop close) reward_r
          (le_of_lt N ordered (nought N) (N.sub stop close) risk) h in
      (ground (arith, rounded.sub_pos stop close), rounded.sub-le close gain nonneg)

  module _ (clock : Clock) (mean : List Float → Float) (config : OrbRetestConfig N)
      (rewarding : le (nought N) config.reward_r ≡ true) (candles : List (Row N))
      (sector : Option Float) (base : Base N) where
    -- The signal `s` of the candle `c`: it closes at the entry, before the cutoff, beyond the level
    -- of the opening range that it touched again and beyond the volume-weighted price, on enough
    -- volume.
    pub record IsTrigger (c : Row N) (session_vwap : Float) (s : OrbSignal N) : Type 0 where
      pub at_close : (s.signal_time ≡ c.time) × (s.entry_reference ≡ c.close)
      pub confirmed :
          IsRetest s.direction c
            (level_of N base s.direction)
            (mul (level_of N base s.direction) config.retest_buffer_fraction)
            session_vwap
      pub on_volume :
          (rvol : Float) × (confirmation_rvol_of N clock mean candles c ≡ some rvol)
          × (le config.minimum_confirmation_rvol rvol ≡ true)
      pub laid_out : AreInOrder s.direction s.stop s.entry_reference s.target

    enough_volume :
        (o : Option Float)
        → rvol_confirms N config o ≡ true
        → (rvol : Float) × (o ≡ some rvol) × (le config.minimum_confirmation_rvol rvol ≡ true)
    enough_volume none h = absurd (ground arith)
    enough_volume (some rvol) h = (rvol, refl, h)

    signal_on-IsTrigger :
        (direction : Direction) (c : Row N) (session_vwap : Float) (s : OrbSignal N)
        → signal_on N config base direction c session_vwap
            (confirmation_rvol_of N clock mean candles c)
          ≡ some s
        → (s.direction ≡ direction) × IsTrigger c session_vwap s
    unfolding signal_on
    signal_on-IsTrigger direction c session_vwap s h =
        let level = level_of N base direction in
        let buffer = mul level config.retest_buffer_fraction in
        let stop = stop_of N direction c level buffer in
        let (confirms, enough, risk, same) = guarded _ _ _ _ s h in
        subst (λ (t : OrbSignal N). (t.direction ≡ direction) × IsTrigger c session_vwap t) same
          (
            refl,
            record {
              at_close = (refl, refl);
              confirmed = is_confirmed-IsRetest direction c level buffer session_vwap confirms;
              on_volume = enough_volume _ enough;
              laid_out = in_order direction stop c.close config.reward_r rewarding risk;
            },
          )

    signal_at-IsTrigger :
        (broken : Option (Direction × ℕ)) (index : ℕ) (c : Row N) (session_vwap : Float)
        (s : OrbSignal N)
        → signal_at N clock mean config candles sector base broken index c session_vwap ≡ some s
        → ((k : ℕ) × (broken ≡ some (s.direction, k)) × (k < index)) × IsTrigger c session_vwap s
    signal_at-IsTrigger none index c session_vwap s h = absurd (ground arith)
    signal_at-IsTrigger (some (direction, broken_at)) index c session_vwap s h =
        elim (Bool-cases (leb index broken_at)) [
          | inl early ↦ absurd (ground (arith, early))
          | inr late ↦
              let (same, trigger) = signal_on-IsTrigger direction c session_vwap s (rw late at h) in
              (
                (broken_at, ap (λ (d : Direction). some (d, broken_at)) (sym same), ground arith),
                trigger,
              )
        ]

    -- If the watch of the later candles triggers, then on one of them, before the cutoff, and only
    -- after the range was broken in the direction of the signal by an earlier one or before. It
    -- touches the level of the opening range again and closes beyond it and beyond the
    -- volume-weighted price of the candles of the session up to it, those given and the later ones,
    -- on enough volume. With a reward factor that is not negative, its stop, entry and target are in
    -- order.
    pub watch_from-IsTrigger :
        (cumulative : List (Row N)) (broken : Option (Direction × ℕ)) (index : ℕ)
        (later : List (Row N)) (s : OrbSignal N)
        → watch_from N clock mean config candles sector base cumulative broken index later
          ≡ triggered s
        → (i : ℕ) × (c : Row N) × (get_elem? later i ≡ some c)
          × (clock.minute c.time < config.entry_cutoff)
          × IsBroken N clock mean config candles sector base cumulative broken index later i
              s.direction
          × IsTrigger c (vwap N (cumulative ++ take i later) c) s
    unfolding watch_from
    watch_from-IsTrigger cumulative broken index [] s h = absurd (ground arith)
    watch_from-IsTrigger cumulative broken index (c ∷ cs) s h =
        let session_vwap = vwap N cumulative c in
        let next = next_break N clock mean config candles sector base broken index c session_vwap in
        elim (Bool-cases (leb config.entry_cutoff (clock.minute c.time))) [
          | inl late ↦ absurd (ground (arith, late))
          | inr early ↦
              elim (Option-cases
                (signal_at N clock mean config candles sector base broken index c session_vwap)) [
                  | inr (x, found) ↦
                      let same : x ≡ s = triggered_inj x s (rw (early, found, watch_from) at h) in
                      let ((k, is_broken, before), trigger) =
                        signal_at-IsTrigger broken index c session_vwap s (rw same at found) in
                      (
                        0,
                        c,
                        refl,
                        ground (arith, early),
                        inl (k, is_broken, omega arith),
                        rw (append-nil cumulative) trigger,
                      )
                  | inl missing ↦
                      let (i, d, at, early_too, breaks, rest) =
                        watch_from-IsTrigger (cumulative ++ (c ∷ [])) next (suc index) cs s
                          (rw (early, missing, watch_from) at h) in
                      (
                        suc i,
                        d,
                        at,
                        early_too,
                        IsBroken-suc N clock mean config candles sector base cumulative broken index
                            c cs i s.direction breaks,
                        rw (append_assoc cumulative (c ∷ []) (take i cs)) at rest,
                      )
                ]
        ]
