-- ===== src/Signals/Router.antt =====
-- `SignalRouter.route` of app/signals/router.py: the portfolio gate, the signals table, the cooldown
-- and the notifications. The settings stand as read from the configuration; the rendering of a
-- message and the sending through a channel are parameters.
pub mod Gate
mod Tests
use protocol_monitor.Common.{
  ℕ, String, Bool, true, false, not, ◌&&◌, ◌||◌, Option, none, some, List, [], ◌∷◌, Dict, insert,
  mem_text, str_eq, if◌then◌else◌,
}
use protocol_monitor.Numbers.{Numbers, nought}
use protocol_monitor.Market.Kline.{DateTime}
use protocol_monitor.Signals.Models.{
  Signal, SignalRow, SignalLevel, l2, is_l3, is_l4, level_value, flag, texts,
}
use protocol_monitor.Risk.Portfolio.{
  PortfolioRiskConfig, PortfolioRiskState, RiskDecision, Clusters, assess,
}
use protocol_monitor.Risk.Cooldown.{Call, Sent, allowed}
use protocol_monitor.Storage.Signals.{save_signal, get_manageable_signals}
use protocol_monitor.Storage.RiskState.{get_portfolio_risk_state}
use protocol_monitor.Storage.States.{NotificationRow, save_notification}

pub record RouterConfig (N : Numbers) : Type 0 where
  pub risk : PortfolioRiskConfig N
  pub clusters : Clusters
  pub risk_per_1r_pct : N.Float
  pub ordinary_minutes : ℕ
  pub l4_minutes : ℕ
  pub notifications_enabled : Bool
  pub levels : List String
  -- The channels, each with its `enabled`.
  pub channels : List (String × Bool)

-- `NotificationResult`
pub record SendResult : Type 0 where
  pub is_ok : Bool
  pub error : Option String

pub record RouterState (N : Numbers) : Type 0 where
  pub signals : List (SignalRow N)
  pub notifications : List NotificationRow
  pub sent : Sent

-- How `route` ends: it returns, or it raises with what is done by then.
pub data Routed (N : Numbers) : Type 0 where
  finished : RouterState N → Routed N
  insert_error unknown_channel : RouterState N → Routed N

pub record Outside (N : Numbers) : Type 0 where
  -- Whether the database refuses a row for the signals table, as its constraints say.
  pub insert_refused : SignalRow N → List (SignalRow N) → Bool
  -- How the database orders NULL, and the clocks of the calls.
  pub nulls_first : Bool
  pub risk_now : DateTime
  pub now : DateTime
  pub sent_now : String → DateTime
  -- Title and body.
  pub render_signal : Signal N → String × String
  pub send : String → String → String → SendResult

module _ (N : Numbers) where
  open N use {Float, lt}

  -- `signal.risk_flags["portfolio_risk"] = list(decision.reasons)`
  abbrev pub with_reasons : List String → Signal N → Signal N
  with_reasons [] s = s
  with_reasons (r ∷ rs) s = record s {
    risk_flags = insert "portfolio_risk" (texts (r ∷ rs)) s.risk_flags;
  }

  abbrev pub if_blocked : Bool → Signal N → Signal N
  if_blocked false s = s
  if_blocked true s = record s {
    level = l2;
    status = "WATCHING";
    risk_flags = insert "portfolio_blocked" (flag true) s.risk_flags;
  }

  -- Lines 51 to 58.
  pub apply_decision : RiskDecision N → Signal N → Signal N
  apply_decision d s =
      if_blocked d.blocked (with_reasons d.reasons (record s { position_r = d.allowed_position_r }))

  abbrev pub risk_state_on : RouterConfig N → Outside N → List (SignalRow N) → PortfolioRiskState N
  risk_state_on config o table =
      let risk = get_portfolio_risk_state N o.nulls_first o.risk_now config.risk_per_1r_pct table in
      record {
        daily_realized_r = risk.daily_realized_r;
        current_drawdown_pct = risk.current_drawdown_pct;
        consecutive_losses = risk.consecutive_losses;
      }

  -- The decision on the signal, from the tables.
  abbrev pub decision_on :
      RouterConfig N → Outside N → List (SignalRow N) → Signal N → RiskDecision N
  decision_on config o table s =
      assess N config.risk config.clusters s (get_manageable_signals N none none table)
        (risk_state_on config o table)

  abbrev pub is_entry : Signal N → Bool
  is_entry s = is_l3 s.level && lt (nought N) s.position_r

  -- Lines 42 to 58.
  pub gate : RouterConfig N → Outside N → List (SignalRow N) → Signal N → Signal N
  gate config o table s = if is_entry s then apply_decision (decision_on config o table s) s else s

  abbrev pub call_of : RouterConfig N → Outside N → String → Signal N → Call
  call_of config o strategy_id s = record {
    symbol = s.symbol;
    strategy_id = strategy_id;
    level = level_value s.level;
    reason = s.trigger_reason;
    now = o.now;
    minutes = if is_l4 s.level then config.l4_minutes else config.ordinary_minutes;
  }

  abbrev pub row_of : Outside N → Signal N → String → NotificationRow
  row_of o s channel =
      let (title, body) = o.render_signal s in
      let result = o.send channel title body in
      record {
        signal_id = s.signal_id;
        channel = channel;
        target = channel;
        title = title;
        body = body;
        status = if result.is_ok then "SENT" else "FAILED";
        error_message = result.error;
        sent_at = if result.is_ok then some (o.sent_now channel) else none;
      }

  abbrev pub with_notification : NotificationRow → RouterState N → RouterState N
  with_notification row state = record state {
    notifications = save_notification row state.notifications;
  }

  -- The loop over the channels.
  pub notify_all : Outside N → Signal N → List (String × Bool) → RouterState N → Routed N
  notify_all o s [] state = finished state
  notify_all o s ((channel, false) ∷ rest) state = notify_all o s rest state
  notify_all o s ((channel, true) ∷ rest) state =
      let done = notify_all o s rest (with_notification (row_of o s channel) state) in
      if mem_text channel ("telegram" ∷ "feishu" ∷ []) then done else unknown_channel state

  -- Lines 66 to 69.
  abbrev pub notify : RouterConfig N → Outside N → Signal N → RouterState N → Routed N
  notify config o s state =
      if not config.notifications_enabled || not (mem_text (level_value s.level) config.levels)
      then finished state
      else notify_all o s config.channels state

  abbrev pub after_cooldown :
      RouterConfig N → Outside N → Signal N → RouterState N → Bool × Sent → Routed N
  after_cooldown config o s state (is_allowed, sent) =
      if is_allowed
      then notify config o s (record state { sent = sent })
      else finished (record state { sent = sent })

  abbrev pub after_save :
      RouterConfig N
      → Outside N
      → String
      → Signal N
      → RouterState N
      → Option (List (SignalRow N))
      → Routed N
  after_save config o strategy_id s state none = insert_error state
  after_save config o strategy_id s state (some table) =
      after_cooldown config o s (record state { signals = table })
        (allowed (call_of config o strategy_id s) state.sent)

  -- `route`
  pub route : RouterConfig N → Outside N → Signal N → String → RouterState N → Routed N
  route config o signal strategy_id state =
      let s = gate config o state.signals signal in
      after_save config o strategy_id s state (save_signal N o.insert_refused s state.signals)
