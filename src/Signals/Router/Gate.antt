-- ===== src/Signals/Router/Gate.antt =====
-- What the router stores.
use protocol_monitor.Common.{
  ◌≡◌, refl, sym, ap, ◌∙◌, String, Bool, true, false, not, ◌||◌, Bool-cases, Option-cases, inl, inr,
  none, List, [], ◌∷◌, ◌++◌, All, mem_text, arith,
}
use mathlib.Core.Path.{subst}
use protocol_monitor.Common.Upper.{sorted_texts}
use protocol_monitor.Numbers.{Numbers, nought}
use protocol_monitor.Numbers.Laws.{IsOrdered, IsRounded}
use protocol_monitor.Signals.Models.{Signal, SignalRow, is_l3, level_value}
use protocol_monitor.Risk.Portfolio.{clusters_for}
use protocol_monitor.Risk.Portfolio.Caps.{FitsCluster, assess-FitsCluster}
use protocol_monitor.Risk.Cooldown.{Sent, allowed}
use protocol_monitor.Storage.Signals.{new_row, save_signal, get_manageable_signals}
use protocol_monitor.Storage.Signals.Laws.{save_signal-some}
use protocol_monitor.Signals.Router.{
  RouterConfig, RouterState, Routed, finished, insert_error, unknown_channel, Outside, with_reasons,
  if_blocked, apply_decision, decision_on, risk_state_on, is_entry, gate, call_of, row_of,
  with_notification, notify_all, after_cooldown, route,
}

module _ {N : Numbers} where
  abbrev signals_of : RouterState N → Routed N → List (SignalRow N)
  signals_of s (finished t) = t.signals
  signals_of s (insert_error t) = t.signals
  signals_of s (unknown_channel t) = t.signals

module _ (N : Numbers) (order : IsOrdered N) (laws : IsRounded N) where
  open N use {lt, le}

  -- A size within the limit on a position and, in each cluster of the symbol that has open signals,
  -- within what the cluster has left.
  pub record IsCapped (config : RouterConfig N) (table : List (SignalRow N)) (signal s : Signal N)
      : Type 0 where
    pub in_limit : le s.position_r config.risk.max_position_r ≡ true
    pub in_clusters :
        All
          (FitsCluster N order laws config.risk config.clusters
            (get_manageable_signals N none none table)
            s.position_r)
          (sorted_texts (clusters_for config.clusters signal.symbol))

  with_reasons-position :
      (rs : List String) (s : Signal N)
      → ((with_reasons N rs s).position_r ≡ s.position_r) × ((with_reasons N rs s).level ≡ s.level)
  with_reasons-position [] s = (refl, refl)
  with_reasons-position (r ∷ rs) s = (refl, refl)

  if_blocked-position :
      (b : Bool) (s : Signal N)
      → is_l3 (if_blocked N b s).level ≡ true
      → (b ≡ false) × ((if_blocked N b s).position_r ≡ s.position_r)
  if_blocked-position false s h = (refl, refl)
  if_blocked-position true s h = absurd (ground arith)

  module _ (config : RouterConfig N) (limited : le (nought N) config.risk.max_position_r ≡ true)
      (o : Outside N) where
    apply_decision-IsCapped :
        (table : List (SignalRow N)) (signal : Signal N)
        → let s = apply_decision N (decision_on N config o table signal) signal in
          is_l3 s.level ≡ true → IsCapped config table signal s
    unfolding apply_decision
    apply_decision-IsCapped table signal h =
        let d = decision_on N config o table signal in
        let sized : Signal N = record signal { position_r = d.allowed_position_r } in
        let (_, size) = if_blocked-position d.blocked (with_reasons N d.reasons sized) h in
        let (kept, _) = with_reasons-position d.reasons sized in
        let (low, high, fits, _, _) =
          assess-FitsCluster N order laws config.risk config.clusters
            (get_manageable_signals N none none table) signal (risk_state_on N config o table)
            limited in
        let is_size = sym (size ∙ kept) in
        record {
          in_limit = subst (λ (x : N.Float). le x config.risk.max_position_r ≡ true) is_size high;
          in_clusters =
              subst
                (λ (x : N.Float).
                  All
                    (FitsCluster N order laws config.risk config.clusters
                      (get_manageable_signals N none none table) x)
                    (sorted_texts (clusters_for config.clusters signal.symbol)))
                is_size fits;
        }

    l3_of : (s : Signal N) → is_entry N s ≡ true → is_l3 s.level ≡ true
    l3_of s h = ground arith

    gate-IsCapped :
        (table : List (SignalRow N)) (signal : Signal N)
        → is_entry N (gate N config o table signal) ≡ true
        → IsCapped config table signal (gate N config o table signal)
    unfolding gate
    gate-IsCapped table signal h = elim (Bool-cases (is_entry N signal)) [
      | inl entry ↦ rw entry (
          apply_decision-IsCapped table signal
            (l3_of (apply_decision N (decision_on N config o table signal) signal) (rw entry at h)))
      | inr other ↦ absurd (ground (arith, other))
    ]

    notify_all-signals :
        (s : Signal N) (channels : List (String × Bool)) (state after : RouterState N)
        → notify_all N o s channels state ≡ finished after
        → after.signals ≡ state.signals
    unfolding notify_all
    notify_all-signals s [] state after h = sym (ap (signals_of state) h)
    notify_all-signals s ((channel, false) ∷ rest) state after h =
        notify_all-signals s rest state after h
    notify_all-signals s ((channel, true) ∷ rest) state after h =
        elim (Bool-cases (mem_text channel ("telegram" ∷ "feishu" ∷ []))) [
          | inl known ↦
              notify_all-signals s rest (with_notification N (row_of N o s channel) state) after
                (rw known at h)
          | inr unknown ↦ absurd (ground (arith, unknown))
        ]

    after_cooldown-signals :
        (s : Signal N) (state after : RouterState N) (r : Bool × Sent)
        → after_cooldown N config o s state r ≡ finished after
        → after.signals ≡ state.signals
    after_cooldown-signals s state after (false, sent) h = sym (ap (signals_of state) h)
    after_cooldown-signals s state after (true, sent) h =
        elim (Bool-cases (
          not config.notifications_enabled || not (mem_text (level_value s.level) config.levels))) [
            | inl silent ↦ sym (ap (signals_of state) (rw silent at h))
            | inr loud ↦
                notify_all-signals s config.channels (record state { sent = sent }) after
                  (rw loud at h)
          ]

    -- When `route` returns, the signals table has one row more, that of the signal as the portfolio
    -- gate left it, whatever the cooldown and the notifications do; and if that is an entry, an L3
    -- of positive size, its size is within the limit on a position and, in each cluster of the
    -- symbol that has open signals, within what the cluster has left. The limit is not negative.
    pub route-IsCapped :
        (signal : Signal N) (strategy_id : String) (state after : RouterState N)
        → route N config o signal strategy_id state ≡ finished after
        → let s = gate N config o state.signals signal in
          (after.signals ≡ state.signals ++ (new_row N s ∷ []))
          × (is_entry N s ≡ true → IsCapped config state.signals signal s)
    unfolding route
    route-IsCapped signal strategy_id state after h =
        let s = gate N config o state.signals signal in
        elim (Option-cases (save_signal N o.insert_refused s state.signals)) [
          | inl refused ↦ absurd (ground (arith, refused))
          | inr (table, saved) ↦ (
            after_cooldown-signals s (record state { signals = table }) after
                  (allowed (call_of N config o strategy_id s) state.sent) (rw saved at h)
                ∙ save_signal-some N o.insert_refused s state.signals table saved,
            gate-IsCapped state.signals signal,
          )
        ]
