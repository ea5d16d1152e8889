-- ===== src/Storage/States.antt =====
-- The tables of strategy states and of notifications, and their operations in `SignalRepository`.
mod Tests
use protocol_monitor.Common.{
  ℕ, ◌≡◌, refl, String, Bool, true, false, not, ◌&&◌, ◌||◌, Option, none, some, List, [], ◌∷◌, ◌++◌,
  keep, any_of, Dict, lookup, insert, lookup-insert, str_eq, str_eq_iff, str_eq_self, if◌then◌else◌,
  arith, Bool-cases, inl, inr,
}
use protocol_monitor.Numbers.{Numbers}
use protocol_monitor.Market.Kline.{DateTime}
use protocol_monitor.Signals.Models.{Json}

-- A row of `strategy_states`.
pub record StrategyRow (N : Numbers) : Type 0 where
  pub strategy_id : String
  pub exchange : String
  pub symbol : String
  pub book : String
  pub strategy_name : String
  pub state : String
  pub direction : String
  pub context : Dict (Json N)
  pub last_signal_id : Option (Json N)
  pub entered_state_at : DateTime
  pub updated_at : DateTime

-- A row of `notifications`, with the columns that the code writes.
pub record NotificationRow : Type 0 where
  pub signal_id : String
  pub channel : String
  pub target : String
  pub title : String
  pub body : String
  pub status : String
  pub error_message : Option String
  pub sent_at : Option DateTime

module _ (N : Numbers) where
  abbrev pub other_strategy : String → StrategyRow N → Bool
  other_strategy id r = not (str_eq r.strategy_id id)

  -- `save_strategy_state`: `DELETE`, then `INSERT`.
  pub save_strategy_state : StrategyRow N → List (StrategyRow N) → List (StrategyRow N)
  save_strategy_state row table = keep (other_strategy row.strategy_id) table ++ (row ∷ [])

  abbrev pub collect : List (StrategyRow N) → Dict (StrategyRow N) → Dict (StrategyRow N)
  collect [] d = d
  collect (r ∷ rs) d = collect rs (insert r.strategy_id r d)

  -- `get_strategy_states`: by id, the later row of two with one id.
  pub get_strategy_states : List (StrategyRow N) → Dict (StrategyRow N)
  get_strategy_states table = collect table []

  lookup-collect-snoc :
      (rs : List (StrategyRow N)) (row : StrategyRow N) (d : Dict (StrategyRow N)) (id : String)
      → lookup id (collect (rs ++ (row ∷ [])) d)
        ≡ (if str_eq row.strategy_id id then some row else lookup id (collect rs d))
  lookup-collect-snoc [] row d id = lookup-insert row.strategy_id id row d
  lookup-collect-snoc (r ∷ rs) row d id = lookup-collect-snoc rs row (insert r.strategy_id r d) id

  abbrev Agree : String → Dict (StrategyRow N) → Dict (StrategyRow N) → Type 0
  Agree id d e = lookup id d ≡ lookup id e

  -- Dropping the rows of another id leaves what is found under `id`.
  lookup-collect-keep :
      (rs : List (StrategyRow N)) (gone id : String) (d e : Dict (StrategyRow N))
      → str_eq gone id ≡ false
      → Agree id d e
      → Agree id (collect (keep (other_strategy gone) rs) d) (collect rs e)
  lookup-collect-keep [] gone id d e other same = same
  lookup-collect-keep (r ∷ rs) gone id d e other same =
      elim (Bool-cases (str_eq r.strategy_id gone)) [
        | inl hit ↦ rw hit (
            lookup-collect-keep rs gone id d (insert r.strategy_id r e) other (
              ground (
                arith,
                same,
                lookup-insert r.strategy_id id r e,
                str_eq_iff r.strategy_id gone,
                str_eq_iff r.strategy_id id,
                str_eq_iff gone id,
              )))
        | inr miss ↦ rw miss (
            lookup-collect-keep rs gone id (insert r.strategy_id r d) (insert r.strategy_id r e)
              other
              (ground (
                arith,
                same,
                lookup-insert r.strategy_id id r d,
                lookup-insert r.strategy_id id r e,
              )))
      ]

  -- After saving a strategy's state, reading the states finds that row under its id, and under any
  -- other id what it found before.
  pub get_strategy_states-save_strategy_state :
      (row : StrategyRow N) (table : List (StrategyRow N)) (id : String)
      → lookup id (get_strategy_states (save_strategy_state row table))
        ≡ (if str_eq row.strategy_id id then some row else lookup id (get_strategy_states table))
  unfolding get_strategy_states save_strategy_state
  get_strategy_states-save_strategy_state row table id =
      elim (Bool-cases (str_eq row.strategy_id id)) [
        | inl hit ↦
            rw (lookup-collect-snoc (keep (other_strategy row.strategy_id) table) row [] id, hit)
              refl
        | inr miss ↦
            rw
              (
                lookup-collect-snoc (keep (other_strategy row.strategy_id) table) row [] id,
                miss,
                lookup-collect-keep table row.strategy_id id [] [] miss refl,
              )
              refl
      ]

-- `save_notification`
pub save_notification : NotificationRow → List NotificationRow → List NotificationRow
save_notification row table = table ++ (row ∷ [])

-- `was_notification_sent`
pub was_notification_sent : String → String → List NotificationRow → Bool
was_notification_sent signal_id channel table =
    any_of
      (λ (r : NotificationRow).
        str_eq r.signal_id signal_id && (str_eq r.channel channel && str_eq r.status "SENT"))
      table
