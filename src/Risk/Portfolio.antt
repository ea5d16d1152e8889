-- ===== src/Risk/Portfolio.antt =====
-- `PortfolioRiskPolicy` of app/risk/portfolio.py: caps on correlated exposure.
pub mod Caps
use Prim.Native.String.{◌++◌ as text_append}
use protocol_monitor.Common.{
  ℕ, String, Bool, true, false, ◌&&◌, List, [], ◌∷◌, ◌++◌, map, keep, mem_text, Dict, leb,
  if◌then◌else◌,
}
use protocol_monitor.Common.Upper.{upper, sorted_texts}
use protocol_monitor.Numbers.{Numbers, nought, fmax, fmin, fsum}
use protocol_monitor.Signals.Models.{Signal, SignalRow}

pub record PortfolioRiskConfig (N : Numbers) : Type 0 where
  pub max_position_r : N.Float
  pub max_cluster_r : N.Float
  pub max_daily_loss_r : N.Float
  pub drawdown_throttle_start_pct : N.Float
  pub drawdown_stop_pct : N.Float
  pub consecutive_loss_throttle : ℕ

pub record PortfolioRiskState (N : Numbers) : Type 0 where
  pub daily_realized_r : N.Float
  pub current_drawdown_pct : N.Float
  pub consecutive_losses : ℕ

pub record RiskDecision (N : Numbers) : Type 0 where
  pub allowed_position_r : N.Float
  pub blocked : Bool
  pub reasons : List String

-- The names of the clusters, each with its members.
abbrev pub Clusters : Type 0
Clusters = Dict (List String)

abbrev pub default_clusters : Clusters
default_clusters =
    ("crypto_beta", "BTCUSDT" ∷ "ETHUSDT" ∷ [])
    ∷ ("semiconductors", "SOXL" ∷ "SOXX" ∷ "SMH" ∷ "MU" ∷ "ARM" ∷ "NVDA" ∷ "AMD" ∷ [])
    ∷ ("digital_assets", "BTCUSDT" ∷ "ETHUSDT" ∷ "CRCL" ∷ "COIN" ∷ "HOOD" ∷ [])
    ∷ []

-- `_clusters_for`, on the normalized symbol.
unfoldable pub names_with : String → Clusters → List String
names_with symbol [] = []
names_with symbol ((name, members) ∷ rest) =
    if mem_text symbol members then name ∷ names_with symbol rest else names_with symbol rest

unfoldable pub clusters_for : Clusters → String → List String
clusters_for clusters symbol = names_with (upper symbol) clusters

module _ (N : Numbers) where
  open N use {Float, lit, sub, mul, neg, lt, le}

  -- `active_r` of a cluster.
  unfoldable pub active_in : Clusters → List (SignalRow N) → String → Float
  active_in clusters active cluster = fsum N (
      map (λ (r : SignalRow N). r.position_r)
        (keep (λ (r : SignalRow N). mem_text cluster (clusters_for clusters r.symbol)) active))

  unfoldable pub available_in :
      PortfolioRiskConfig N → Clusters → List (SignalRow N) → String → Float
  available_in config clusters active cluster =
      fmax N (nought N) (sub config.max_cluster_r (active_in clusters active cluster))

  -- The requested size and the reasons, as the loop over the clusters goes on.
  abbrev pub Request : Type 0
  Request = Float × List String

  -- The body of the loop, lines 73 to 81.
  unfoldable pub cap_cluster :
      PortfolioRiskConfig N → Clusters → List (SignalRow N) → String → Request → Request
  cap_cluster config clusters active cluster (requested, reasons) =
      let available = available_in config clusters active cluster in
      if le available requested && lt (nought N) (active_in clusters active cluster)
      then (fmin N requested available, reasons ++ (text_append "cluster_cap:" cluster ∷ []))
      else (requested, reasons)

  unfoldable pub cap_all :
      PortfolioRiskConfig N → Clusters → List (SignalRow N) → List String → Request → Request
  cap_all config clusters active [] request = request
  cap_all config clusters active (c ∷ cs) request =
      cap_all config clusters active cs (cap_cluster config clusters active c request)

  -- Lines 65 to 70.
  unfoldable pub throttle : Bool → String → Request → Request
  throttle active reason (requested, reasons) =
      if active then (mul requested (lit 5 1), reasons ++ (reason ∷ [])) else (requested, reasons)

  abbrev pub refusal : String → RiskDecision N
  refusal reason = record { allowed_position_r = nought N; blocked = true; reasons = reason ∷ [] }

  -- The request when the loop over the clusters begins.
  unfoldable pub throttled : PortfolioRiskConfig N → Float → PortfolioRiskState N → Request
  throttled config position_r state =
      let start = fmin N (fmax N position_r (nought N)) config.max_position_r in
      throttle (leb config.consecutive_loss_throttle state.consecutive_losses)
        "consecutive_loss_throttle"
        (throttle (le config.drawdown_throttle_start_pct state.current_drawdown_pct)
          "drawdown_throttle" (start, []))

  -- `assess`
  unfoldable pub assess :
      PortfolioRiskConfig N
      → Clusters
      → Signal N
      → List (SignalRow N)
      → PortfolioRiskState N
      → RiskDecision N
  assess config clusters signal active state =
      let (requested, reasons) =
        cap_all config clusters active (sorted_texts (clusters_for clusters signal.symbol))
          (throttled config signal.position_r state) in
      if le state.daily_realized_r (neg config.max_daily_loss_r)
      then refusal "daily_loss_limit"
      else if le config.drawdown_stop_pct state.current_drawdown_pct
      then refusal "drawdown_stop"
      else record {
        allowed_position_r = requested;
        blocked = le requested (nought N);
        reasons = reasons;
      }
