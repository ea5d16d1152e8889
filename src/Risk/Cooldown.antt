-- ===== src/Risk/Cooldown.antt =====
-- `SignalCooldown` of app/risk/cooldown.py: repeated signals are held back for a while.
pub mod Spacing
use protocol_monitor.Common.{
  ℕ, ◌+◌, ◌≡◌, ◌↔◌, String, Bool, true, false, not, ◌&&◌, Option, none, some, List, [], ◌∷◌, str_eq,
  str_eq_iff, if◌then◌else◌, ltb, arith,
}
use protocol_monitor.Market.Kline.{DateTime, minutes}

pub record Key : Type 0 where
  pub symbol : String
  pub strategy_id : String
  pub level : String
  pub reason : String

-- The arguments of `allowed`.
pub record Call : Type 0 where
  pub symbol : String
  pub strategy_id : String
  pub level : String
  pub reason : String
  pub now : DateTime
  pub minutes : ℕ

-- The reason counts for L4 alone.
abbrev pub key : Call → Key
key c = record {
  symbol = c.symbol;
  strategy_id = c.strategy_id;
  level = c.level;
  reason = if str_eq c.level "L4" then c.reason else "";
}

unfoldable pub key_eq : Key → Key → Bool
key_eq a b =
    str_eq a.symbol b.symbol
    && (str_eq a.strategy_id b.strategy_id && (str_eq a.level b.level && str_eq a.reason b.reason))

pub key_eq_iff : (a b : Key) → (key_eq a b ≡ true) ↔ (a ≡ b)
unfolding key_eq
key_eq_iff a b = ground (
  arith,
  str_eq_iff a.symbol b.symbol,
  str_eq_iff a.strategy_id b.strategy_id,
  str_eq_iff a.level b.level,
  str_eq_iff a.reason b.reason,
)

-- `_last_sent`
abbrev pub Sent : Type 0
Sent = List (Key × DateTime)

abbrev pub last_sent : Key → Sent → Option DateTime
last_sent k [] = none
last_sent k ((j, t) ∷ s) = if key_eq j k then some t else last_sent k s

abbrev pub remember : Key → DateTime → Sent → Sent
remember k t [] = (k, t) ∷ []
remember k t ((j, u) ∷ s) = if key_eq j k then (k, t) ∷ s else (j, u) ∷ remember k t s

-- `previous and now - previous < timedelta(minutes=minutes)`
abbrev pub is_held : Call → Option DateTime → Bool
is_held c none = false
is_held c (some previous) = ltb c.now (previous + minutes c.minutes)

-- `allowed`
unfoldable pub allowed : Call → Sent → Bool × Sent
allowed c s =
    if is_held c (last_sent (key c) s) then (false, s) else (true, remember (key c) c.now s)
