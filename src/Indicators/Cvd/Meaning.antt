-- ===== src/Indicators/Cvd/Meaning.antt =====
-- What the fields of a `CvdResult` say of the candles.
use protocol_monitor.Common.{
  ℕ, suc, ◌≤◌, ◌<◌, ◌≡◌, ◌↔◌, refl, ap, true, false, some, List, [], ◌∷◌, length, length-take_last,
  get_last?, drop_last, take_last, All, all_of, any_of, arith, ltb, ◌==◌,
}
use protocol_monitor.Numbers.{Numbers, nought}
use protocol_monitor.Numbers.Laws.{IsOrdered, fmax_from-lt}
use protocol_monitor.Market.Kline.{Kline}
use protocol_monitor.Indicators.Cvd.{
  up, CvdSource, taker_delta, ohlcv_proxy, CvdResult, is_taker, count_taker, source_of, totals_from,
  deltas, sources, calculate_cvd_proxy, exceeds, undercuts, trend_of,
}

module _ (N : Numbers) where
  open N use {Float, add, lt}

  count_taker-le : (ss : List CvdSource) → count_taker N ss ≤ length ss
  count_taker-le [] = omega arith
  count_taker-le (s ∷ ss) = ground (arith, count_taker-le ss)

  count_taker-all : (ss : List CvdSource) → (count_taker N ss == length ss) ≡ all_of is_taker ss
  count_taker-all [] = refl
  count_taker-all (s ∷ ss) = ground (arith, count_taker-all ss, count_taker-le ss)

  count_taker-any : (ss : List CvdSource) → ltb 0 (count_taker N ss) ≡ any_of is_taker ss
  count_taker-any [] = refl
  count_taker-any (s ∷ ss) = ground (arith, count_taker-any ss)

  length-totals_from : (t : Float) (ds : List Float) → length (totals_from N t ds) ≡ length ds
  unfolding totals_from
  length-totals_from t [] = refl
  length-totals_from t (d ∷ ds) = ap suc (length-totals_from (add t d) ds)

  last-total : (xs : List Float) → 0 < length xs → (x : Float) × (get_last? xs ≡ some x)
  last-total [] h = elim h [ ]
  last-total (x ∷ []) h = (x, refl)
  last-total (x ∷ y ∷ ys) h = last-total (y ∷ ys) (omega arith)

  length-deltas : (cs : List (Kline N)) → length (deltas N cs) ≡ length cs
  unfolding deltas
  length-deltas [] = refl
  length-deltas (c ∷ cs) = ap suc (length-deltas cs)

  length-sources : (cs : List (Kline N)) → length (sources N cs) ≡ length cs
  unfolding sources
  length-sources [] = refl
  length-sources (c ∷ cs) = ap suc (length-sources cs)

  abbrev pub AllBelow : Float → List Float → Type 0
  AllBelow top = All (λ (x : Float). lt x top ≡ true)

  exceeds-AllBelow :
      IsOrdered N → (c : Float) (xs : List Float) → exceeds N c xs ≡ true → AllBelow c xs
  exceeds-AllBelow laws c [] h = tt
  exceeds-AllBelow laws c (x ∷ xs) h = fmax_from-lt N laws x xs c h

  pub calculate_cvd_proxy-total :
      IsOrdered N
      → (c : Kline N) (cs : List (Kline N)) (lookback : ℕ) → 0 < lookback
      → let window = take_last lookback (deltas N (c ∷ cs)) in
        let origin = take_last lookback (sources N (c ∷ cs)) in
        let totals = totals_from N (nought N) window in
        (r : CvdResult N) × (calculate_cvd_proxy N (c ∷ cs) lookback ≡ some r)
        × (get_last? (deltas N (c ∷ cs)) ≡ some r.delta)
        × (get_last? totals ≡ some r.cvd)
        × ((r.trend ≡ up) ↔ (lt (nought N) r.delta ≡ true))
        × ((r.source ≡ taker_delta) ↔ (all_of is_taker origin ≡ true))
        × ((r.source ≡ ohlcv_proxy) ↔ (any_of is_taker origin ≡ false))
        × (r.makes_new_high ≡ true → AllBelow r.cvd (drop_last totals))
  unfolding calculate_cvd_proxy source_of
  calculate_cvd_proxy-total laws c cs lookback pos =
      let all = deltas N (c ∷ cs) in
      let window = take_last lookback all in
      let origin = take_last lookback (sources N (c ∷ cs)) in
      let totals = totals_from N (nought N) window in
      let (delta, ed) = last-total all (omega (arith, length-deltas (c ∷ cs))) in
      let (cvd, ec) = last-total totals (
        omega (
          arith,
          length-totals_from (nought N) window,
          length-take_last lookback all,
          length-deltas (c ∷ cs),
        )) in
      (
        record {
          cvd = cvd;
          delta = delta;
          makes_new_high = exceeds N cvd (drop_last totals);
          makes_new_low = undercuts N cvd (drop_last totals);
          trend = trend_of N delta;
          source = source_of N origin;
        },
        rw (ec, ed),
        ed,
        ec,
        ground arith,
        ground (arith, count_taker-all origin),
        ground (
          arith,
          count_taker-any origin,
          length-take_last lookback (sources N (c ∷ cs)),
          length-sources (c ∷ cs),
        ),
        exceeds-AllBelow laws cvd (drop_last totals),
      )

  pub calculate_cvd_proxy-some :
      IsOrdered N
      → (cs : List (Kline N)) (lookback : ℕ) → 0 < lookback
      → (r : CvdResult N) × (calculate_cvd_proxy N cs lookback ≡ some r)
  unfolding calculate_cvd_proxy
  calculate_cvd_proxy-some laws [] lookback pos = (_, refl)
  calculate_cvd_proxy-some laws (c ∷ cs) lookback pos =
      let (r, e, _, _, _, _, _, _) = calculate_cvd_proxy-total laws c cs lookback pos in (r, e)
