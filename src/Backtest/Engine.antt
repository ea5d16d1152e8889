-- ===== src/Backtest/Engine.antt =====
-- `BacktestEngine` of app/backtest/engine.py: closed-bar intents filled at the next bar's open.
-- This file holds the configuration, one trade (`_simulate_trade`) and the loop of `run`; `Report`
-- holds the statistics of `_result`.
pub mod Report
mod Tests
pub mod Exits
pub mod Fills
pub mod Schedule
pub mod Prefix
use protocol_monitor.Common.{
  ℕ, zero, suc, ◌+◌, ◌-◌, ◌≡◌, Bool, true, false, not, ◌&&◌, ◌||◌, Option, none, some, List, [],
  ◌∷◌, String, ltb, leb, ◌==◌, if◌then◌else◌, length, get_elem?, min, Result, ok, err, ◌>>=◌,
}
use protocol_monitor.Common.Int.{ℤ, pos, negsuc, leb_ℤ}
use protocol_monitor.Numbers.{Numbers, nought, truthy}
use protocol_monitor.Market.Kline.{Kline, DateTime}

pub data Direction : Type 0 where
  long short : Direction

abbrev pub is_long : Direction → Bool
is_long long = true
is_long short = false

pub data ExitReason : Type 0 where
  end_of_data time_stop stop_gap target_gap : ExitReason
  ambiguous_stop_first ambiguous_target_first stop target : ExitReason

-- The exceptions that list accesses, divisions and powers could raise.
pub data Fault : Type 0 where
  index_error zero_division overflow : Fault

-- `xs[i]`
abbrev pub item : {A : Type 0} → List A → ℕ → Result Fault A
item xs i = elim (get_elem? xs i) [ none ↦ err index_error | some x ↦ ok x ]

pub record EntryIntent (N : Numbers) : Type 0 where
  pub direction : Direction
  pub stop : N.Float
  pub target : N.Float
  pub reason : String
  pub risk_fraction : N.Float
  pub max_hold_bars : Option ℕ
  pub minimum_rr : N.Float
  pub strategy : String

pub record FundingRate (N : Numbers) : Type 0 where
  pub time : DateTime
  pub rate : N.Float
  pub mark_price : Option N.Float

pub record BacktestConfig (N : Numbers) : Type 0 where
  pub fee_bps_per_side : N.Float
  pub slippage_bps_per_side : N.Float
  pub starting_equity : N.Float
  pub stop_first_when_ambiguous : Bool

pub record BacktestTrade (N : Numbers) : Type 0 where
  pub strategy : String
  pub direction : Direction
  pub signal_time : DateTime
  pub entry_time : DateTime
  pub exit_time : DateTime
  pub entry : N.Float
  pub exit : N.Float
  pub stop : N.Float
  pub target : N.Float
  pub exit_reason : ExitReason
  pub gross_r : N.Float
  pub fee_r : N.Float
  pub funding_r : N.Float
  pub net_r : N.Float
  pub risk_fraction : N.Float
  pub pnl_fraction : N.Float

-- Where and why the loop over the bars of a trade ends.
pub record Exit (N : Numbers) : Type 0 where
  pub index : ℕ
  pub raw : N.Float
  pub reason : ExitReason

-- `_utc_timestamp`: the clock of a `DateTime` is UTC already.
abbrev pub utc_timestamp : DateTime → DateTime
utc_timestamp t = t

module _ (N : Numbers) where
  open N use {Float, float, lit, add, sub, mul, div, neg, lt, le, eq}

  -- `_slipped`
  pub slipped : BacktestConfig N → Float → Direction → Bool → Float
  slipped config price direction entering =
      let slippage = div config.slippage_bps_per_side (lit 10_000 0) in
      let signed =
        if (if is_long direction then entering else not entering) then slippage else neg slippage in
      mul price (add (lit 1 0) signed)

  -- `_bar_hits`: the stop, then the target.
  pub bar_hits : Kline N → EntryIntent N → Bool × Bool
  bar_hits bar intent =
      let low = float bar.low in
      let high = float bar.high in
      if is_long intent.direction
      then (le low intent.stop, le intent.target high)
      else (le intent.stop high, le low intent.target)

  abbrev pub stop_gap_at : Kline N → EntryIntent N → Bool
  stop_gap_at bar intent =
      if is_long intent.direction
      then le (float bar.open_price) intent.stop
      else le intent.stop (float bar.open_price)

  abbrev pub target_gap_at : Kline N → EntryIntent N → Bool
  target_gap_at bar intent =
      if is_long intent.direction
      then le intent.target (float bar.open_price)
      else le (float bar.open_price) intent.target

  -- The body of the loop, lines 140 to 175: the raw exit price and the reason, or none to go on.
  pub bar_exit : BacktestConfig N → EntryIntent N → Kline N → Option (Float × ExitReason)
  bar_exit config intent bar =
      let (stop_hit, target_hit) = bar_hits bar intent in
      if stop_gap_at bar intent
      then some (float bar.open_price, stop_gap)
      else if target_gap_at bar intent
      then some (intent.target, target_gap)
      else if stop_hit && target_hit
      then (if config.stop_first_when_ambiguous
          then some (intent.stop, ambiguous_stop_first)
          else some (intent.target, ambiguous_target_first))
      else if stop_hit
      then some (intent.stop, stop)
      else if target_hit
      then some (intent.target, target)
      else none

  -- `_funding_r`, its loop from the profit so far.
  pub funding_from : List (FundingRate N) → Direction → DateTime → DateTime → Float → Float → Float
  funding_from [] direction entry_time exit_time entry pnl = pnl
  funding_from (point ∷ points) direction entry_time exit_time entry pnl =
      let mark : Float = elim point.mark_price [
        | none ↦ entry
        | some p ↦ if truthy N p then p else entry
      ] in
      let sign = if is_long direction then lit 1 0 else neg (lit 1 0) in
      let inside =
        ltb (utc_timestamp entry_time) (utc_timestamp point.time)
        && leb (utc_timestamp point.time) (utc_timestamp exit_time) in
      funding_from points direction entry_time exit_time entry
        (if inside then sub pnl (mul (mul sign point.rate) mark) else pnl)

  pub funding_r : List (FundingRate N) → Direction → DateTime → DateTime → Float → Float → Float
  funding_r points direction entry_time exit_time entry risk =
      div (funding_from points direction entry_time exit_time entry (nought N)) risk

  -- `for index in range(entry_index, final_index + 1)`, with the rounds left.
  pub scan :
      BacktestConfig N → EntryIntent N → List (Kline N) → ℕ → ℕ → Result Fault (Option (Exit N))
  scan config intent bars zero index = ok none
  scan config intent bars (suc rounds) index = do
    bar ← item bars index
    elim (bar_exit config intent bar) [
      | none ↦ scan config intent bars rounds (suc index)
      | some (raw, why) ↦ ok (some (record { index = index; raw = raw; reason = why }))
    ]

  -- Lines 133 to 135; `bars` is not empty, and a hold below 1 bar counts as 1.
  pub final_index : EntryIntent N → List (Kline N) → ℕ → ℕ
  final_index intent bars entry_index = elim intent.max_hold_bars [
    | none ↦ length bars - 1
    | some hold ↦ min (length bars - 1) (entry_index + (hold - 1))
  ]

  -- Lines 136 to 138: the exit if no bar calls for one.
  pub run_out : List (Kline N) → ℕ → Kline N → Exit N
  run_out bars final last = record {
    index = final;
    raw = float last.close;
    reason = if final == length bars - 1 then end_of_data else time_stop;
  }

  abbrev pub or_else : Option (Exit N) → Exit N → Exit N
  or_else none e = e
  or_else (some e) _ = e

  -- Lines 136 to 175.
  pub find_exit : BacktestConfig N → EntryIntent N → List (Kline N) → ℕ → Result Fault (Exit N)
  find_exit config intent bars entry_index = do
    let final = final_index intent bars entry_index
    last ← item bars final
    found ← scan config intent bars (final + 1 - entry_index) entry_index
    ok (or_else found (run_out bars final last))

  abbrev pub risk_of : EntryIntent N → Float → Float
  risk_of intent entry =
      if is_long intent.direction then sub entry intent.stop else sub intent.stop entry

  abbrev pub reward_of : EntryIntent N → Float → Float
  reward_of intent entry =
      if is_long intent.direction then sub intent.target entry else sub entry intent.target

  -- Lines 127 to 132: the intent is dropped.
  pub is_refused : EntryIntent N → Float → Bool
  is_refused intent entry =
      le (risk_of intent entry) (nought N)
      || (le (reward_of intent entry) (nought N)
          || lt (div (reward_of intent entry) (risk_of intent entry)) intent.minimum_rr)

  -- Lines 176 to 208: the trade from its two ends.
  pub close_trade :
      BacktestConfig N
      → EntryIntent N
      → List (FundingRate N)
      → (signal entry_bar exit_bar : Kline N) → Float
      → Exit N
      → BacktestTrade N
  close_trade config intent points signal entry_bar exit_bar entry e =
      let risk = risk_of intent entry in
      let exit_price = slipped config e.raw intent.direction false in
      let move = if is_long intent.direction then sub exit_price entry else sub entry exit_price in
      let gross = div move risk in
      let fee =
        div (mul (add entry exit_price) (div config.fee_bps_per_side (lit 10_000 0))) risk in
      let funding =
        funding_r points intent.direction entry_bar.open_time exit_bar.close_time entry risk in
      let net = add (sub gross fee) funding in
      record {
        strategy = intent.strategy;
        direction = intent.direction;
        signal_time = signal.close_time;
        entry_time = entry_bar.open_time;
        exit_time = exit_bar.close_time;
        entry = entry;
        exit = exit_price;
        stop = intent.stop;
        target = intent.target;
        exit_reason = e.reason;
        gross_r = gross;
        fee_r = fee;
        funding_r = funding;
        net_r = net;
        risk_fraction = intent.risk_fraction;
        pnl_fraction = mul intent.risk_fraction net;
      }

  -- `_simulate_trade`
  pub simulate_trade :
      BacktestConfig N
      → List (FundingRate N)
      → List (Kline N)
      → ℕ
      → ℕ
      → EntryIntent N
      → Result Fault (Option (BacktestTrade N) × ℕ)
  simulate_trade config points bars signal_index entry_index intent = do
    entry_bar ← item bars entry_index
    let entry = slipped config (float entry_bar.open_price) intent.direction true
    if is_refused intent entry then ok (none, entry_index) else do
      e ← find_exit config intent bars entry_index
      exit_bar ← item bars e.index
      signal ← item bars signal_index
      ok (some (close_trade config intent points signal entry_bar exit_bar entry e), e.index)

  -- `sorted(intents)` with the intents that the keys lead to.
  pub insert_intent : ℤ × EntryIntent N → List (ℤ × EntryIntent N) → List (ℤ × EntryIntent N)
  insert_intent x [] = x ∷ []
  insert_intent x (y ∷ ys) = if leb_ℤ x.0 y.0 then x ∷ y ∷ ys else y ∷ insert_intent x ys

  pub sorted_intents : List (ℤ × EntryIntent N) → List (ℤ × EntryIntent N)
  sorted_intents [] = []
  sorted_intents (x ∷ xs) = insert_intent x (sorted_intents xs)

  -- What the loop of `run` has gathered.
  pub record Book : Type 0 where
    pub trades : List (BacktestTrade N)
    pub occupied_bars : ℕ

  abbrev pub enter : BacktestTrade N → ℕ → Book → Book
  enter trade bars book = record {
    trades = trade ∷ book.trades;
    occupied_bars = bars + book.occupied_bars;
  }

  -- The loop of `run` over the sorted intents, from the next free bar on.
  pub run_from :
      BacktestConfig N
      → List (FundingRate N)
      → List (Kline N)
      → ℕ
      → List (ℤ × EntryIntent N)
      → Result Fault Book
  run_from config points bars next_free [] = ok (record { trades = []; occupied_bars = 0 })
  run_from config points bars next_free ((negsuc _, _) ∷ rest) =
      run_from config points bars next_free rest
  run_from config points bars next_free ((pos signal_index, intent) ∷ rest) =
      let entry_index = signal_index + 1 in
      let skipped = run_from config points bars next_free rest in
      if leb (length bars) entry_index || ltb entry_index next_free then skipped else do
        (trade, exit_index) ← simulate_trade config points bars signal_index entry_index intent
        elim trade [
          | none ↦ run_from config points bars next_free rest
          | some t ↦ do
            book ← run_from config points bars (exit_index + 1) rest
            ok (enter t (exit_index - entry_index + 1) book)
        ]
