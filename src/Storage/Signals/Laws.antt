-- ===== src/Storage/Signals/Laws.antt =====
-- Laws of the `signals` table: unique ids, and updates of one row.
use mathlib.Core.List.{map-append}
use protocol_monitor.Common.{String, Bool, ◌≡◌, refl, false, [], ◌∷◌, ◌++◌, any_of, arith, some}
use protocol_monitor.Numbers.{Numbers}
use protocol_monitor.Signals.Models.{Signal, SignalRow}
use protocol_monitor.Storage.Signals.{
  Changes, Table, has_id, new_row, update_signal_lifecycle, save_signal,
}

module _ (N : Numbers) where
  -- No row of the table has the id.
  abbrev pub Lacks : String → Table N → Type 0
  Lacks id table = any_of (has_id N id) table ≡ false

  -- The `signal_id` column is unique.
  abbrev pub HasUniqueIds : Table N → Type 0
  HasUniqueIds [] = Unit
  HasUniqueIds (r ∷ rs) = Lacks r.signal_id rs × HasUniqueIds rs

  pub Lacks-append :
      (id : String) (xs ys : Table N) → Lacks id xs → Lacks id ys → Lacks id (xs ++ ys)
  Lacks-append id [] ys h k = k
  Lacks-append id (x ∷ xs) ys h k = ground (arith, Lacks-append id xs ys)

  pub update-Lacks :
      (id : String) (c : Changes) (table : Table N)
      → Lacks id table
      → update_signal_lifecycle N id c table ≡ table
  unfolding update_signal_lifecycle
  update-Lacks id c [] h = refl
  update-Lacks id c (r ∷ rs) h = ground (arith, update-Lacks id c rs)

  pub update-append :
      (id : String) (c : Changes) (xs ys : Table N)
      → update_signal_lifecycle N id c (xs ++ ys)
        ≡ update_signal_lifecycle N id c xs ++ update_signal_lifecycle N id c ys
  unfolding update_signal_lifecycle
  update-append id c xs ys = map-append _ xs ys

  pub save_signal-some :
      (refuses : SignalRow N → Table N → Bool) (s : Signal N) (table new : Table N)
      → save_signal N refuses s table ≡ some new
      → new ≡ table ++ (new_row N s ∷ [])
  unfolding save_signal
  save_signal-some refuses s table new h = ground arith
