-- ===== src/Risk/Levels.antt =====
-- app/risk/rr.py, stops.py and time_stop.py: the reward-to-risk ratio, the buffered stop, the time
-- stop.
use protocol_monitor.Common.{
  ℕ, ◌+◌, ◌≡◌, ◌⊎◌, String, Bool, true, false, not, ◌||◌, str_eq, str_eq_iff, if◌then◌else◌, leb,
  arith,
}
use protocol_monitor.Numbers.{Numbers, nought, fmax}
use protocol_monitor.Numbers.Laws.{IsOrdered, IsRounded, le-fmax_left}
use protocol_monitor.Market.Kline.{DateTime, hours}

-- `should_time_stop`, on the status, the first target and the creation time of a signal.
pub should_time_stop : String → Bool → DateTime → DateTime → ℕ → Bool
should_time_stop status tp1_reached created_at now max_hold_hours =
    if not (str_eq status "TRIGGERED" || str_eq status "MANAGING")
    then false
    else if tp1_reached
    then false
    else leb (created_at + hours max_hold_hours) now

module _ (N : Numbers) where
  open N use {Float, add, sub, mul, div, lt, le}

  abbrev ratio : Float → Float → Float
  ratio risk reward = if le risk (nought N) then nought N else div reward risk

  -- `calc_rr`
  unfoldable pub calc_rr : String → Float → Float → Float → Float
  calc_rr direction entry stop target =
      if str_eq direction "LONG"
      then ratio (sub entry stop) (sub target entry)
      else if str_eq direction "SHORT"
      then ratio (sub stop entry) (sub entry target)
      else nought N

  -- `atr_buffered_stop`
  pub atr_buffered_stop : String → Float → Float → Float → Float
  atr_buffered_stop direction structure_stop atr multiplier =
      let buffer = mul (fmax N (nought N) atr) (fmax N (nought N) multiplier) in
      if str_eq direction "SHORT"
      then add structure_stop buffer
      else if str_eq direction "LONG"
      then sub structure_stop buffer
      else structure_stop

  module _ (order : IsOrdered N) (laws : IsRounded N) where
    -- The stop, the entry and the target stand in the order of the direction.
    abbrev pub IsLaidOut : String → Float → Float → Float → Type 0
    IsLaidOut direction entry stop target =
        ((direction ≡ "LONG") × (lt stop entry ≡ true) × (lt entry target ≡ true))
        ⊎ ((direction ≡ "SHORT") × (lt entry stop ≡ true) × (lt target entry ≡ true))

    ratio-pos :
        (risk reward : Float)
        → lt (nought N) (ratio risk reward) ≡ true
        → (lt (nought N) risk ≡ true) × (lt (nought N) reward ≡ true)
    ratio-pos risk reward h = ground (
      arith,
      order.le-eq-not-lt risk (nought N),
      laws.div_pos reward risk,
      order.lt_asym (nought N) (nought N),
    )

    -- A ratio above zero is given only to a known direction whose stop, entry and target stand in
    -- its order.
    pub calc_rr-IsLaidOut :
        (direction : String) (entry stop target : Float)
        → lt (nought N) (calc_rr direction entry stop target) ≡ true
        → IsLaidOut direction entry stop target
    unfolding calc_rr
    calc_rr-IsLaidOut direction entry stop target h = ground (
      arith,
      str_eq_iff direction "LONG",
      str_eq_iff direction "SHORT",
      ratio-pos (sub entry stop) (sub target entry),
      ratio-pos (sub stop entry) (sub entry target),
      laws.sub_pos entry stop,
      laws.sub_pos target entry,
      laws.sub_pos stop entry,
      laws.sub_pos entry target,
      order.lt_asym (nought N) (nought N),
    )

    -- The buffer never tightens a stop: it lowers that of a long, raises that of a short, whatever
    -- the signs of the range and of the multiplier, and leaves that of any other direction.
    pub atr_buffered_stop_bounds :
        (stop atr multiplier : Float)
        → (le (atr_buffered_stop "LONG" stop atr multiplier) stop ≡ true)
          × (le stop (atr_buffered_stop "SHORT" stop atr multiplier) ≡ true)
    unfolding atr_buffered_stop
    atr_buffered_stop_bounds stop atr multiplier =
        let buffer =
          laws.mul_nonneg _ _ (le-fmax_left N order (nought N) atr)
            (le-fmax_left N order (nought N) multiplier) in
        (laws.sub-le stop _ buffer, laws.le-add stop _ buffer)
