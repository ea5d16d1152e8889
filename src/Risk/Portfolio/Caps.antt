-- ===== src/Risk/Portfolio/Caps.antt =====
-- What an assessment may allow at most.
use protocol_monitor.Common.{
  ◌≡◌, refl, sym, String, Bool, true, false, ◌||◌, List, [], ◌∷◌, All, arith, Bool-cases, inl, inr,
}
use protocol_monitor.Common.Upper.{sorted_texts}
use protocol_monitor.Numbers.{Numbers, nought, fmax, fmin}
use protocol_monitor.Numbers.Laws.{
  IsOrdered, IsRounded, le_refl, le-fmax_left, le-fmax_right, fmin-le_left, fmin-le_right,
}
use protocol_monitor.Signals.Models.{Signal, SignalRow}
use protocol_monitor.Risk.Portfolio.{
  PortfolioRiskConfig, PortfolioRiskState, Clusters, clusters_for, active_in, available_in, Request,
  cap_cluster, cap_all, throttle, throttled, assess,
}

module _ (N : Numbers) (order : IsOrdered N) (laws : IsRounded N) where
  open N use {Float, lt, le, neg}
  open order use {le_trans}

  abbrev IsBetween : Float → Float → Float → Type 0
  IsBetween low x high = (le low x ≡ true) × (le x high ≡ true)

  fmin-nonneg :
      (a b : Float)
      → le (nought N) a ≡ true
      → le (nought N) b ≡ true
      → le (nought N) (fmin N a b) ≡ true
  fmin-nonneg a b h k = ground arith

  module _ (config : PortfolioRiskConfig N) (clusters : Clusters)
      (active : List (SignalRow N)) where
    -- The size fits what the cluster has left, if any of its signals is open.
    abbrev pub FitsCluster : Float → String → Type 0
    FitsCluster size cluster =
        lt (nought N) (active_in N clusters active cluster) ≡ true
        → le size (available_in N config clusters active cluster) ≡ true

    cap_cluster-le :
        (c : String) (request : Request N)
        → le (nought N) request.0 ≡ true
        → IsBetween (nought N) (cap_cluster N config clusters active c request).0 request.0
          × FitsCluster (cap_cluster N config clusters active c request).0 c
    unfolding cap_cluster available_in
    cap_cluster-le c (requested, reasons) h =
        let left = fmax N (nought N) (N.sub config.max_cluster_r (active_in N clusters active c)) in
        ground (
          arith,
          le_refl N order requested,
          fmin-le_left N order requested left,
          fmin-le_right N order requested left,
          fmin-nonneg requested left h (le-fmax_left N order (nought N) _),
          order.le-eq-not-lt left requested,
          order.le-eq-not-lt requested left,
          order.lt_asym requested left,
        )

    FitsCluster-weaken :
        (a b : Float) (c : String) → le a b ≡ true → FitsCluster b c → FitsCluster a c
    FitsCluster-weaken a b c h fits open_signals = le_trans _ _ _ h (fits open_signals)

    cap_all-le :
        (cs : List String) (request : Request N)
        → le (nought N) request.0 ≡ true
        → let size = (cap_all N config clusters active cs request).0 in
          IsBetween (nought N) size request.0 × All (FitsCluster size) cs
    unfolding cap_all
    cap_all-le [] (requested, reasons) h = ((h, le_refl N order requested), tt)
    cap_all-le (c ∷ cs) request h =
        let ((low, high), fits) = cap_cluster-le c request h in
        let next = cap_cluster N config clusters active c request in
        let ((low', high'), rest) = cap_all-le cs next low in
        ((low', le_trans _ _ _ high' high), (FitsCluster-weaken _ _ c high' fits, rest))

    All-zero : (cs : List String) → All (FitsCluster (nought N)) cs
    unfolding available_in
    All-zero [] = tt
    All-zero (c ∷ cs) = (λ open_signals. le-fmax_left N order (nought N) _, All-zero cs)

    throttle-le :
        (on : Bool) (reason : String) (request : Request N)
        → le (nought N) request.0 ≡ true
        → IsBetween (nought N) (throttle N on reason request).0 request.0
    unfolding throttle
    throttle-le true reason (requested, reasons) h = laws.halve-le requested h
    throttle-le false reason (requested, reasons) h = (h, le_refl N order requested)

    throttled-le :
        (size : Float) (state : PortfolioRiskState N)
        → le (nought N) config.max_position_r ≡ true
        → IsBetween (nought N) (throttled N config size state).0 config.max_position_r
    unfolding throttled
    throttled-le size state h =
        let start = fmin N (fmax N size (nought N)) config.max_position_r in
        let start_low = fmin-nonneg _ _ (le-fmax_right N order size (nought N)) h in
        let (low, high) = throttle-le _ "drawdown_throttle" (start, []) start_low in
        let (low', high') = throttle-le _ "consecutive_loss_throttle" _ low in
        (low', le_trans _ _ _ high' (le_trans _ _ _ high (fmin-le_right N order _ _)))

    -- If the limit on a position is not negative, the allowed size lies between zero and that limit,
    -- it fits what is left of every cluster of the symbol that has open signals, the signal is
    -- blocked exactly if the size is not above zero, and a day's loss or a drawdown at its limit blocks it.
    pub assess-FitsCluster :
        (signal : Signal N) (state : PortfolioRiskState N)
        → le (nought N) config.max_position_r ≡ true
        → let d = assess N config clusters signal active state in
          (le (nought N) d.allowed_position_r ≡ true)
          × (le d.allowed_position_r config.max_position_r ≡ true)
          × All
              (FitsCluster d.allowed_position_r)
              (sorted_texts (clusters_for clusters signal.symbol))
          × (d.blocked ≡ le d.allowed_position_r (nought N))
          × (le state.daily_realized_r (neg config.max_daily_loss_r)
                  || le config.drawdown_stop_pct state.current_drawdown_pct
                ≡ true
              → d.blocked ≡ true)
    unfolding assess
    assess-FitsCluster signal state h =
        let cs = sorted_texts (clusters_for clusters signal.symbol) in
        let (low, high) = throttled-le signal.position_r state h in
        let ((low', high'), fits) =
          cap_all-le cs (throttled N config signal.position_r state) low in
        elim (Bool-cases (le state.daily_realized_r (neg config.max_daily_loss_r))) [
          | inl lost ↦
              rw lost (le_refl N order _, h, All-zero cs, sym (le_refl N order _), λ e. refl)
          | inr fine ↦ elim (Bool-cases (le config.drawdown_stop_pct state.current_drawdown_pct)) [
            | inl down ↦
                rw (fine, down)
                  (le_refl N order _, h, All-zero cs, sym (le_refl N order _), λ e. refl)
            | inr up ↦ rw (fine, up) (low', le_trans _ _ _ high' high, fits, refl, λ e. cc)
          ]
        ]
