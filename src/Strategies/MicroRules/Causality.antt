-- ===== src/Strategies/MicroRules/Causality.antt =====
-- An evaluation reads nothing that was not usable at its time.
use protocol_monitor.Common.{◌≡◌, refl, String, Option, none, some, List, keep}
use protocol_monitor.Numbers.{Numbers}
use protocol_monitor.Market.Kline.{Kline, DateTime}
use protocol_monitor.Strategies.MicroRules.{
  Library, OpenInterestPoint, FundingPoint, CryptoMicroRuleConfig, is_usable_bar,
}
use protocol_monitor.Strategies.MicroRules.Numeric.Laws.{keep-keep}
use protocol_monitor.Strategies.MicroRules.Data.{
  causal_bars, is_usable_oi, causal_oi_points, is_usable_funding, causal_funding_points,
  latest_funding,
}
use protocol_monitor.Strategies.MicroRules.Context.{oi_washout_near_sweep}
use protocol_monitor.Strategies.MicroRules.Cm2
use protocol_monitor.Strategies.MicroRules.Cm2.{evaluate_cm2_short}
use protocol_monitor.Strategies.MicroRules.Cm3
use protocol_monitor.Strategies.MicroRules.Cm3.{evaluate_cm3_long}

module _ (N : Numbers) where
  causal_bars-keep :
      (as_of : DateTime) (interval : String) (bars : List (Kline N))
      → causal_bars N as_of interval (keep (is_usable_bar N as_of interval) bars)
        ≡ causal_bars N as_of interval bars
  unfolding causal_bars
  causal_bars-keep as_of interval bars = rw (keep-keep (is_usable_bar N as_of interval) bars) refl

  module _ (L : Library N) where
    latest_funding-keep :
        (as_of : DateTime) (points : List (FundingPoint N))
        → latest_funding N L as_of (keep (is_usable_funding N L as_of) points)
          ≡ latest_funding N L as_of points
    unfolding latest_funding causal_funding_points
    latest_funding-keep as_of points = rw (keep-keep (is_usable_funding N L as_of) points) refl

    oi_washout_near_sweep-keep :
        (as_of : DateTime) (points : List (OpenInterestPoint N)) (bar : Kline N)
        (config : CryptoMicroRuleConfig N)
        → oi_washout_near_sweep N L (keep (is_usable_oi N L as_of) points) as_of bar config
          ≡ oi_washout_near_sweep N L points as_of bar config
    unfolding oi_washout_near_sweep causal_oi_points
    oi_washout_near_sweep-keep as_of points bar config =
        rw (keep-keep (is_usable_oi N L as_of) points) refl

    -- What a short's evaluation may read: closed bars of the right interval and settled funding.
    abbrev pub usable_for_short : Cm2.Inputs N → Cm2.Inputs N
    usable_for_short i = record {
      as_of = i.as_of;
      eth_5m = keep (is_usable_bar N i.as_of "5m") i.eth_5m;
      eth_15m = keep (is_usable_bar N i.as_of "15m") i.eth_15m;
      eth_4h = keep (is_usable_bar N i.as_of "4h") i.eth_4h;
      btc_5m = keep (is_usable_bar N i.as_of "5m") i.btc_5m;
      funding = keep (is_usable_funding N L i.as_of) i.funding;
    }

    abbrev pub usable_for_long : Cm3.Inputs N → Cm3.Inputs N
    usable_for_long i = record {
      as_of = i.as_of;
      eth_5m = keep (is_usable_bar N i.as_of "5m") i.eth_5m;
      btc_5m = keep (is_usable_bar N i.as_of "5m") i.btc_5m;
      open_interest = keep (is_usable_oi N L i.as_of) i.open_interest;
      funding = keep (is_usable_funding N L i.as_of) i.funding;
    }

    evaluate_cm2_short-usable_for_short :
        (i : Cm2.Inputs N) (config : CryptoMicroRuleConfig N)
        → evaluate_cm2_short N L (usable_for_short i) config ≡ evaluate_cm2_short N L i config
    unfolding evaluate_cm2_short Cm2.findings
    evaluate_cm2_short-usable_for_short i config =
        rw
          (
            causal_bars-keep i.as_of "5m" i.eth_5m,
            causal_bars-keep i.as_of "15m" i.eth_15m,
            causal_bars-keep i.as_of "4h" i.eth_4h,
            causal_bars-keep i.as_of "5m" i.btc_5m,
            latest_funding-keep i.as_of i.funding,
          )
          refl

    washout_near-usable_for_long :
        (i : Cm3.Inputs N) (config : CryptoMicroRuleConfig N) (bar : Option (Kline N))
        → Cm3.washout_near N L (usable_for_long i) config bar ≡ Cm3.washout_near N L i config bar
    washout_near-usable_for_long i config none = refl
    washout_near-usable_for_long i config (some bar) =
        oi_washout_near_sweep-keep i.as_of i.open_interest bar config

    evaluate_cm3_long-usable_for_long :
        (i : Cm3.Inputs N) (config : CryptoMicroRuleConfig N)
        → evaluate_cm3_long N L (usable_for_long i) config ≡ evaluate_cm3_long N L i config
    unfolding evaluate_cm3_long Cm3.findings
    evaluate_cm3_long-usable_for_long i config =
        rw
          (
            causal_bars-keep i.as_of "5m" i.eth_5m,
            causal_bars-keep i.as_of "5m" i.btc_5m,
            latest_funding-keep i.as_of i.funding,
            washout_near-usable_for_long i config,
          )
          refl

    -- Neither evaluation looks ahead: each is the one on the usable inputs alone, that is bars of its
    -- intervals that were closed by `as_of`, and open interest and funding that were observed and
    -- published by then.
    pub evaluate-usable :
        (short_inputs : Cm2.Inputs N) (long_inputs : Cm3.Inputs N)
        (config : CryptoMicroRuleConfig N)
        → (evaluate_cm2_short N L (usable_for_short short_inputs) config
            ≡ evaluate_cm2_short N L short_inputs config)
          × (evaluate_cm3_long N L (usable_for_long long_inputs) config
              ≡ evaluate_cm3_long N L long_inputs config)
    evaluate-usable short_inputs long_inputs config = (
      evaluate_cm2_short-usable_for_short short_inputs config,
      evaluate_cm3_long-usable_for_long long_inputs config,
    )
