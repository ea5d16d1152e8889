-- ===== src/Storage/Signals.antt =====
-- `SignalRepository`: the `signals` table.
pub mod Laws
use protocol_monitor.Common.{
  ℕ, ◌+◌, ◌-◌, ◌≤◌, String, Bool, true, false, ◌&&◌, ◌||◌, Option, none, some, List, [], ◌∷◌, ◌++◌,
  map, keep, any_of, str_eq, if◌then◌else◌, leb,
}
use protocol_monitor.Numbers.{Numbers}
use protocol_monitor.Market.Kline.{DateTime}
use protocol_monitor.Signals.Models.{Signal, SignalRow}

-- The keyword arguments of `update_signal_lifecycle`; one that is not given leaves its column.
pub record Changes : Type 0 where
  pub status : Option String
  pub tp1_reached : Option Bool
  pub sl_reached : Option Bool
  pub resolved_at : Option DateTime
  pub expired_at : Option DateTime
  pub result : Option String

abbrev pub no_changes : Changes
no_changes = record {
  status = none;
  tp1_reached = none;
  sl_reached = none;
  resolved_at = none;
  expired_at = none;
  result = none;
}

abbrev pub given {ℓ} : {A : Type ℓ} → Option A → A → A
given none old = old
given (some new) _ = new

abbrev pub given_some {ℓ} : {A : Type ℓ} → Option A → Option A → Option A
given_some none old = old
given_some (some new) _ = some new

abbrev pub is_given {ℓ} : {A : Type ℓ} → Option A → Bool
is_given none = false
is_given (some _) = true

module _ (N : Numbers) where
  abbrev pub Table : Type 0
  Table = List (SignalRow N)

  -- The columns of a new row that `save_signal` does not give.
  abbrev pub new_row : Signal N → SignalRow N
  new_row s = record {
    signal = s;
    sl_reached = false;
    resolved_at = none;
    expired_at = none;
    result = none;
  }

  abbrev pub has_id : String → SignalRow N → Bool
  has_id id r = str_eq r.signal_id id

  -- `save_signal`: a plain INSERT. `refuses` is the database's answer, from its constraints, to the
  -- row for the table; `none` is the error then raised.
  unfoldable pub save_signal : (SignalRow N → Table → Bool) → Signal N → Table → Option Table
  save_signal refuses s table =
      if refuses (new_row s) table then none else some (table ++ (new_row s ∷ []))

  -- `status IN ('TRIGGERED', 'MANAGING') AND entry IS NOT NULL AND sl IS NOT NULL`
  unfoldable pub is_manageable : SignalRow N → Bool
  is_manageable r =
      (str_eq r.status "TRIGGERED" || str_eq r.status "MANAGING")
      && (is_given r.entry && is_given r.sl)

  abbrev pub matches : Option String → String → Bool
  matches none column = true
  matches (some wanted) column = str_eq column wanted

  abbrev pub is_wanted : Option String → Option String → SignalRow N → Bool
  is_wanted exchange symbol r =
      is_manageable r && (matches exchange r.exchange && matches symbol r.symbol)

  unfoldable pub get_manageable_signals : Option String → Option String → Table → Table
  get_manageable_signals exchange symbol table = keep (is_wanted exchange symbol) table

  unfoldable pub apply_changes : Changes → SignalRow N → SignalRow N
  apply_changes c r = record r {
    signal = record (r.signal) {
      status = given c.status r.status;
      tp1_reached = given c.tp1_reached r.tp1_reached;
    };
    sl_reached = given c.sl_reached r.sl_reached;
    resolved_at = given_some c.resolved_at r.resolved_at;
    expired_at = given_some c.expired_at r.expired_at;
    result = given_some c.result r.result;
  }

  -- `update_signal_lifecycle`
  unfoldable pub update_signal_lifecycle : String → Changes → Table → Table
  update_signal_lifecycle id c table =
      map (λ (r : SignalRow N). if has_id id r then apply_changes c r else r) table

  -- Insertion by falling `created_at`, after the rows that are as recent.
  insert_recent : SignalRow N → Table → Table
  insert_recent r [] = r ∷ []
  insert_recent r (q ∷ qs) =
      if leb q.created_at r.created_at then r ∷ q ∷ qs else q ∷ insert_recent r qs

  -- `ORDER BY created_at DESC`
  pub newest_first : Table → Table
  newest_first [] = []
  newest_first (r ∷ rs) = insert_recent r (newest_first rs)

  -- `get_recent_signals`, with `hours` as a span of time.
  pub get_recent_signals : ℕ → DateTime → Table → Table
  get_recent_signals span now table =
      newest_first (keep (λ (r : SignalRow N). leb now (r.created_at + span)) table)
