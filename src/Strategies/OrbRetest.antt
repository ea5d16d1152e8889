-- ===== src/Strategies/OrbRetest.antt =====
-- app/strategies/equity_orb_retest.py: the break of the opening range and its retest. A row's time
-- is its instant; the New York day and minute of an instant, which the time zone database gives, and
-- `statistics.mean` are parameters. The cutoff stands as its minute of the day.
pub mod Broken
pub mod Trigger
use protocol_monitor.Common.{
  ℕ, zero, suc, ◌+◌, ◌*◌, ◌/◌, max, Bool, true, false, not, ◌&&◌, ◌||◌, Option, none, some, List,
  [], ◌∷◌, ◌++◌, map, keep, take, drop, take_last, get_last?, length, ltb, leb, ◌==◌, if◌then◌else◌,
}
use protocol_monitor.Numbers.{Numbers, nought, fmax, fmin, fmax_from, fmin_from, fabs, fsum, truthy}
use protocol_monitor.Market.Kline.{DateTime}
use protocol_monitor.Backtest.Engine.{Direction, long, short}

pub record OrbRetestConfig (N : Numbers) : Type 0 where
  pub opening_range_minutes : ℕ
  pub entry_cutoff : ℕ
  pub minimum_premarket_rvol : N.Float
  pub minimum_confirmation_rvol : N.Float
  pub minimum_absolute_gap_pct : N.Float
  pub require_premarket_rvol : Bool
  pub retest_buffer_fraction : N.Float
  pub reward_r : N.Float

pub record Row (N : Numbers) : Type 0 where
  pub time : DateTime
  pub open_price : N.Float
  pub high : N.Float
  pub low : N.Float
  pub close : N.Float
  pub volume : Option N.Float

pub record Clock : Type 0 where
  -- The day and the minute of the day in New York.
  pub day : DateTime → ℕ
  pub minute : DateTime → ℕ

pub record Filters : Type 0 where
  pub gap : Bool
  pub premarket_rvol : Bool
  pub liquid_premarket : Bool

pub record Base (N : Numbers) : Type 0 where
  pub filters : Filters
  pub gap_pct : Option N.Float
  pub premarket_rvol : Option N.Float
  pub opening_high : N.Float
  pub opening_low : N.Float

pub record OrbSignal (N : Numbers) : Type 0 where
  pub direction : Direction
  pub signal_time : DateTime
  pub entry_reference : N.Float
  pub stop : N.Float
  pub target : N.Float
  pub reward_r : N.Float
  pub confirmation_rvol : N.Float

-- What the loop ends with: a signal, or the direction of the break it waits on.
pub data Watch (N : Numbers) : Type 0 where
  triggered : OrbSignal N → Watch N
  waiting : Option Direction → Watch N

pub data OrbDecision (N : Numbers) : Type 0 where
  no_data : OrbDecision N
  opening_range_forming : ℕ → OrbDecision N
  filtered : Base N → OrbDecision N
  watched : Watch N → Base N → OrbDecision N

abbrev max_from : ℕ → List ℕ → ℕ
max_from m [] = m
max_from m (x ∷ xs) = max_from (if ltb m x then x else m) xs

abbrev direction_of : Option (Direction × ℕ) → Option Direction
direction_of none = none
direction_of (some (d, i)) = some d

abbrev all_filters : Filters → Bool
all_filters f = f.gap && (f.premarket_rvol && f.liquid_premarket)

module _ (N : Numbers) where
  open N use {Float, lit, add, sub, mul, div, lt, le}

  -- `float(candle.get("volume") or 0.0)`
  abbrev volume_of : Row N → Float
  volume_of r = elim r.volume [ none ↦ nought N | some v ↦ v ]

  -- `_sector_allows`
  abbrev sector_allows : Direction → Option Float → Bool
  sector_allows direction none = true
  sector_allows long (some x) = le (nought N) x
  sector_allows short (some x) = le x (nought N)

  -- `_vwap` of `c` and the candles before it.
  unfoldable pub vwap : List (Row N) → Row N → Float
  vwap before c =
      let candles = before ++ (c ∷ []) in
      let volume = fsum N (map volume_of candles) in
      if le volume (nought N)
      then c.close
      else div
          (fsum N (
            map (λ (r : Row N). mul (div (add (add r.high r.low) r.close) (lit 3 0)) (volume_of r))
              candles))
          volume

  -- `by_date[d] = by_date.get(d, 0.0) + volume`
  abbrev add_volume : ℕ → Float → List (ℕ × Float) → List (ℕ × Float)
  add_volume day volume [] = (day, add (nought N) volume) ∷ []
  add_volume day volume ((d, total) ∷ rest) =
      if d == day then (d, add total volume) ∷ rest else (d, total) ∷ add_volume day volume rest

  -- Lines 83 to 88: a break out of the opening range.
  unfoldable pub break_of : Base N → Option Float → Row N → Float → Option Direction
  break_of base sector c session_vwap =
      if lt base.opening_high c.close && (lt session_vwap c.close && sector_allows long sector)
      then some long
      else if lt c.close base.opening_low && (lt c.close session_vwap && sector_allows short sector)
      then some short
      else none

  abbrev pub level_of : Base N → Direction → Float
  level_of base long = base.opening_high
  level_of base short = base.opening_low

  abbrev pub is_confirmed : Direction → Row N → Float → Float → Float → Bool
  is_confirmed long c level buffer session_vwap =
      le c.low (add level buffer) && (lt level c.close && lt session_vwap c.close)
  is_confirmed short c level buffer session_vwap =
      le (sub level buffer) c.high && (lt c.close level && lt c.close session_vwap)

  abbrev pub stop_of : Direction → Row N → Float → Float → Float
  stop_of long c level buffer = fmin N c.low (sub level buffer)
  stop_of short c level buffer = fmax N c.high (add level buffer)

  abbrev pub risk_from : Direction → Float → Float → Float
  risk_from long close stop = sub close stop
  risk_from short close stop = sub stop close

  abbrev pub target_of : Direction → Float → Float → Float → Float
  target_of long close risk reward_r = add close (mul risk reward_r)
  target_of short close risk reward_r = sub close (mul risk reward_r)

  abbrev pub rvol_confirms : OrbRetestConfig N → Option Float → Bool
  rvol_confirms config none = false
  rvol_confirms config (some rvol) = le config.minimum_confirmation_rvol rvol

  abbrev or_nought : Option Float → Float
  or_nought none = nought N
  or_nought (some x) = x

  -- Lines 100 to 124: the signal of `c` after a break.
  unfoldable pub signal_on :
      OrbRetestConfig N → Base N → Direction → Row N → Float → Option Float → Option (OrbSignal N)
  signal_on config base direction c session_vwap rvol =
      let level = level_of base direction in
      let buffer = mul level config.retest_buffer_fraction in
      let stop = stop_of direction c level buffer in
      let risk = risk_from direction c.close stop in
      if is_confirmed direction c level buffer session_vwap
        && (rvol_confirms config rvol && lt (nought N) risk)
      then some (record {
        direction = direction;
        signal_time = c.time;
        entry_reference = c.close;
        stop = stop;
        target = target_of direction c.close risk config.reward_r;
        reward_r = config.reward_r;
        confirmation_rvol = or_nought rvol;
      })
      else none

  module _ (clock : Clock) (mean : List Float → Float) where
    abbrev minutes_of : Row N → ℕ
    minutes_of r = clock.minute r.time

    abbrev is_regular : Row N → Bool
    is_regular r = leb 570 (minutes_of r) && ltb (minutes_of r) 960

    -- Lines 41 to 49, for a day.
    abbrev premarket_of : ℕ → List (Row N) → List (Row N)
    premarket_of day = keep (λ (r : Row N).
        clock.day r.time == day && (leb 240 (minutes_of r) && ltb (minutes_of r) 570))

    abbrev regular_of : ℕ → List (Row N) → List (Row N)
    regular_of day = keep (λ (r : Row N). clock.day r.time == day && is_regular r)

    abbrev by_date_from : ℕ → ℕ → List (ℕ × Float) → List (Row N) → List (ℕ × Float)
    by_date_from session cutoff totals [] = totals
    by_date_from session cutoff totals (r ∷ rs) =
        by_date_from session cutoff
          (if leb session (clock.day r.time)
              || not (leb 240 (minutes_of r) && leb (minutes_of r) cutoff)
            then totals
            else add_volume (clock.day r.time) (volume_of r) totals)
          rs

    abbrev baseline_ratio : List (ℕ × Float) → List (Row N) → Option Float
    baseline_ratio [] current = none
    baseline_ratio (t ∷ ts) current =
        let baseline = mean (take_last 20 (map (λ (d : ℕ × Float). d.1) (t ∷ ts))) in
        if truthy N baseline then some (div (fsum N (map volume_of current)) baseline) else none

    -- `_premarket_rvol`
    premarket_rvol_of : List (Row N) → ℕ → List (Row N) → Option Float
    premarket_rvol_of candles session [] = none
    premarket_rvol_of candles session (r ∷ rs) =
        let cutoff = max_from (minutes_of r) (map minutes_of rs) in
        baseline_ratio (by_date_from session cutoff [] candles) (r ∷ rs)

    abbrev gap_of : Float → Option Float → Option Float
    gap_of session_open none = none
    gap_of session_open (some previous) =
        if truthy N previous
        then some (mul (sub (div session_open previous) (lit 1 0)) (lit 100 0))
        else none

    abbrev gap_passes : OrbRetestConfig N → Option Float → Bool
    gap_passes config none = false
    gap_passes config (some gap) = le config.minimum_absolute_gap_pct (fabs N gap)

    abbrev rvol_passes : OrbRetestConfig N → Option Float → Bool
    rvol_passes config none = not config.require_premarket_rvol
    rvol_passes config (some rvol) = le config.minimum_premarket_rvol rvol

    abbrev is_some_row : List (Row N) → Bool
    is_some_row [] = false
    is_some_row (r ∷ rs) = true

    -- Lines 92 to 99: the volume of `c` relative to that of the bars before it.
    unfoldable pub confirmation_rvol_of : List (Row N) → Row N → Option Float
    confirmation_rvol_of candles c =
        let prior =
          keep (λ (v : Float). lt (nought N) v)
            (map volume_of (keep (λ (r : Row N). ltb r.time c.time && is_regular r) candles)) in
        let average = if leb 1 (length prior) then mean (take_last 20 prior) else nought N in
        if truthy N average then some (div (volume_of c) average) else none

    module _ (config : OrbRetestConfig N) (candles : List (Row N)) (sector : Option Float)
        (base : Base N) where
      abbrev next_break : Option (Direction × ℕ) → ℕ → Row N → Float → Option (Direction × ℕ)
      next_break (some b) index c session_vwap = some b
      next_break none index c session_vwap = elim (break_of base sector c session_vwap) [
        | none ↦ none
        | some direction ↦ some (direction, index)
      ]

      abbrev signal_at : Option (Direction × ℕ) → ℕ → Row N → Float → Option (OrbSignal N)
      signal_at none index c session_vwap = none
      signal_at (some (direction, broken_at)) index c session_vwap =
          if leb index broken_at
          then none
          else signal_on config base direction c session_vwap (confirmation_rvol_of candles c)

      -- The loop of lines 76 to 124.
      unfoldable pub watch_from : List (Row N) → Option (Direction × ℕ) → ℕ → List (Row N) → Watch N
      watch_from cumulative broken index [] = waiting (direction_of broken)
      watch_from cumulative broken index (c ∷ cs) =
          let session_vwap = vwap cumulative c in
          let rest =
            watch_from (cumulative ++ (c ∷ [])) (next_break broken index c session_vwap) (suc index)
              cs in
          if leb config.entry_cutoff (minutes_of c)
          then waiting (direction_of broken)
          else elim (signal_at broken index c session_vwap) [ none ↦ rest | some s ↦ triggered s ]

    abbrev base_of :
        OrbRetestConfig N → Option Float → List (Row N) → ℕ → Row N → List (Row N) → Base N
    base_of config previous_close candles session o os =
        let premarket = premarket_of session candles in
        let gap_pct = gap_of o.open_price previous_close in
        let rvol = premarket_rvol_of candles session premarket in
        record {
          filters = record {
            gap = gap_passes config gap_pct;
            premarket_rvol = rvol_passes config rvol;
            liquid_premarket = is_some_row premarket;
          };
          gap_pct = gap_pct;
          premarket_rvol = rvol;
          opening_high = fmax_from N o.high (map (λ (r : Row N). r.high) os);
          opening_low = fmin_from N o.low (map (λ (r : Row N). r.low) os);
        }

    -- Lines 71 to 131, for an opening range.
    pub if_filtered :
        OrbRetestConfig N
        → List (Row N)
        → Option Float
        → Base N
        → ℕ
        → List (Row N)
        → List (Row N)
        → OrbDecision N
    if_filtered config candles sector base expected opening later =
        if not (all_filters base.filters)
        then filtered base
        else watched (watch_from config candles sector base opening none expected later) base

    abbrev expected_bars : OrbRetestConfig N → ℕ
    expected_bars config = max 1 (config.opening_range_minutes / 15)

    abbrev on_opening :
        OrbRetestConfig N
        → List (Row N)
        → Option Float
        → Option Float
        → ℕ
        → List (Row N)
        → List (Row N)
        → OrbDecision N
    on_opening config candles previous_close sector session [] later = no_data
    on_opening config candles previous_close sector session (o ∷ os) later =
        if_filtered config candles sector (base_of config previous_close candles session o os)
          (expected_bars config) (o ∷ os) later

    -- `evaluate_orb_retest`
    pub evaluate_orb_retest :
        OrbRetestConfig N → List (Row N) → Option Float → Option Float → OrbDecision N
    evaluate_orb_retest config [] previous_close sector = no_data
    evaluate_orb_retest config (c ∷ cs) previous_close sector =
        let candles = c ∷ cs in
        let session = max_from (clock.day c.time) (map (λ (r : Row N). clock.day r.time) cs) in
        let regular = regular_of session candles in
        let expected = expected_bars config in
        if ltb (length regular) expected
        then opening_range_forming (length regular)
        else on_opening config candles previous_close sector session (take expected regular)
            (drop expected regular)
