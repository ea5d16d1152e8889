-- ===== src/Backtest/Engine/Schedule.antt =====
-- The loop of `run`: no access out of range, and trades that never overlap.
use protocol_monitor.Common.{
  ℕ, ◌+◌, ◌-◌, ◌≤◌, ◌<◌, ◌≡◌, refl, Bool, true, false, Option, none, some, List, [], ◌∷◌, arith,
  length, leb, ltb, Bool-cases, inl, inr, ◌⊎◌, ok, ◌>>=◌, ◌||◌,
}
use protocol_monitor.Common.Int.{ℤ, pos, negsuc}
use protocol_monitor.Numbers.{Numbers}
use protocol_monitor.Market.Kline.{Kline}
use protocol_monitor.Backtest.Engine.{
  item, EntryIntent, FundingRate, BacktestConfig, BacktestTrade, Book, enter, is_refused, slipped,
  close_trade, simulate_trade, run_from,
}
use protocol_monitor.Backtest.Engine.Exits.{item-total, find_exit-Exits, final_index_bounds}

abbrev pub Among : {A : Type 0} → A → List A → Type 0
Among x [] = ⊥
Among x (y ∷ ys) = (x ≡ y) ⊎ Among x ys

module _ (N : Numbers) (config : BacktestConfig N) (points : List (FundingRate N))
    (bars : List (Kline N)) where
  -- What a simulated trade looks like: dropped at its entry, or closed at a bar from the entry on,
  -- with the times of its bars.
  abbrev pub Simulated : ℕ → ℕ → Option (BacktestTrade N) × ℕ → Type 0
  Simulated signal entry (none, exit) = exit ≡ entry
  Simulated signal entry (some t, exit) =
      (entry ≤ exit)
      × (exit < length bars)
      × (s : Kline N) × (item bars signal ≡ ok s)
      × (t.signal_time ≡ s.close_time)
      × (a : Kline N) × (item bars entry ≡ ok a)
      × (t.entry_time ≡ a.open_time)
      × (b : Kline N) × (item bars exit ≡ ok b)
      × (t.exit_time ≡ b.close_time)

  simulate_trade-Simulated :
      (signal entry : ℕ) (intent : EntryIntent N)
      → entry < length bars
      → signal < length bars
      → (r : Option (BacktestTrade N) × ℕ) × (simulate_trade N config points bars signal entry
            intent
          ≡ ok r)
        × Simulated signal entry r
  unfolding simulate_trade close_trade
  simulate_trade-Simulated signal entry intent room before =
      let (a, at_entry) = item-total bars entry room in
      let (s, at_signal) = item-total bars signal before in
      let price = slipped N config (N.float a.open_price) intent.direction true in
      let (e, found, exits) = find_exit-Exits N config intent bars entry room in
      let (_, last) = final_index_bounds N config intent bars entry room in
      let low = exits.0 in
      let high = exits.1 in
      let (b, at_exit) = item-total bars e.index (omega arith) in
      elim (Bool-cases (is_refused N intent price)) [
        | inl refused ↦ ((none, entry), rw (at_entry, ◌>>=◌, refused), refl)
        | inr taken ↦ (
          (some (close_trade N config intent points s a b price e), e.index),
          rw (at_entry, ◌>>=◌, taken, found, at_exit, at_signal),
          (low, omega arith, s, at_signal, refl, a, at_entry, refl, b, at_exit, refl),
        )
      ]

  -- Trades in the order in which they were entered: each is the simulation of one of the intents,
  -- entered at the bar after its signal, and after the exit of the trade before. `n` bars are
  -- occupied, from bar `free` on.
  abbrev pub Laid : List (ℤ × EntryIntent N) → ℕ → List (BacktestTrade N) → ℕ → Type 0
  Laid intents free [] n = n ≡ 0
  Laid intents free (t ∷ ts) n =
      (signal exit m : ℕ) × (intent : EntryIntent N) × Among (pos signal, intent) intents
      × (simulate_trade N config points bars signal (signal + 1) intent ≡ ok (some t, exit))
      × (free ≤ signal + 1)
      × Simulated signal (signal + 1) (some t, exit)
      × Laid intents (exit + 1) ts m
      × (n ≡ exit - (signal + 1) + 1 + m)

  Laid-weaken :
      (x : ℤ × EntryIntent N) (intents : List (ℤ × EntryIntent N)) (free : ℕ)
      (ts : List (BacktestTrade N)) (n : ℕ)
      → Laid intents free ts n
      → Laid (x ∷ intents) free ts n
  Laid-weaken x intents free [] n h = h
  Laid-weaken x intents free (t ∷ ts) n
        (signal, exit, m, intent, among, ran, after, sim, rest, sum) =
      (
        signal,
        exit,
        m,
        intent,
        inr among,
        ran,
        after,
        sim,
        Laid-weaken x intents (exit + 1) ts m rest,
        sum,
      )

  abbrev pub Runs : List (ℤ × EntryIntent N) → ℕ → Type 0
  Runs intents free =
      (book : Book N) × (run_from N config points bars free intents ≡ ok book)
      × Laid intents free book.trades book.occupied_bars

  abbrev is_skipped : ℕ → ℕ → Bool
  is_skipped signal free = leb (length bars) (signal + 1) || ltb (signal + 1) free

  Runs-skip :
      (signal : ℕ) (intent : EntryIntent N) (rest : List (ℤ × EntryIntent N)) (free : ℕ)
      → is_skipped signal free ≡ true
      → Runs rest free
      → Runs ((pos signal, intent) ∷ rest) free
  unfolding run_from
  Runs-skip signal intent rest free skip (book, ran, laid) = (
    book,
    rw (skip, ran),
    Laid-weaken (pos signal, intent) rest free book.trades book.occupied_bars laid,
  )

  Runs-take :
      (signal : ℕ) (intent : EntryIntent N) (rest : List (ℤ × EntryIntent N)) (free : ℕ)
      (r : Option (BacktestTrade N) × ℕ)
      → is_skipped signal free ≡ false
      → simulate_trade N config points bars signal (signal + 1) intent ≡ ok r
      → Simulated signal (signal + 1) r
      → ((next : ℕ) → Runs rest next)
      → Runs ((pos signal, intent) ∷ rest) free
  unfolding run_from
  Runs-take signal intent rest free (none, exit) go ran sim more =
      let (book, done, laid) = more free in
      (
        book,
        rw (go, ran, ◌>>=◌, done),
        Laid-weaken (pos signal, intent) rest free book.trades book.occupied_bars laid,
      )
  Runs-take signal intent rest free (some t, exit) go ran sim more =
      let (book, done, laid) = more (exit + 1) in
      (
        enter N t (exit - (signal + 1) + 1) book,
        rw (go, ran, ◌>>=◌, done),
        (
          signal,
          exit,
          book.occupied_bars,
          intent,
          inl refl,
          ran,
          ground arith,
          sim,
          Laid-weaken (pos signal, intent) rest (exit + 1) book.trades book.occupied_bars laid,
          refl,
        ),
      )

  -- The loop of `run` never reads a bar out of range. Its trades are simulations of the given intents,
  -- each entered at the bar after its signal and after the exit of the one before, and the occupied
  -- bars are those from the entry to the exit of each trade.
  pub run_from-Laid : (intents : List (ℤ × EntryIntent N)) (free : ℕ) → Runs intents free
  unfolding run_from
  run_from-Laid [] free = (record { trades = []; occupied_bars = 0 }, refl, refl)
  run_from-Laid ((negsuc k, intent) ∷ rest) free =
      let (book, ran, laid) = run_from-Laid rest free in
      (book, ran, Laid-weaken (negsuc k, intent) rest free book.trades book.occupied_bars laid)
  run_from-Laid ((pos signal, intent) ∷ rest) free = elim (Bool-cases (is_skipped signal free)) [
    | inl skip ↦ Runs-skip signal intent rest free skip (run_from-Laid rest free)
    | inr take ↦
        let room : signal + 1 < length bars = ground arith in
        let (r, ran, sim) =
          simulate_trade-Simulated signal (signal + 1) intent room (omega arith) in
        Runs-take signal intent rest free r take ran sim (run_from-Laid rest)
  ]

  -- The bars that the trades occupy fit between the first free bar and the end of the data.
  pub Laid-le :
      (intents : List (ℤ × EntryIntent N)) (free : ℕ) (ts : List (BacktestTrade N)) (n : ℕ)
      → free ≤ length bars
      → Laid intents free ts n
      → free + n ≤ length bars
  Laid-le intents free [] n room h = omega arith
  Laid-le intents free (t ∷ ts) n room
        (signal, exit, m, intent, among, ran, after, sim, rest, sum) =
      omega (arith, Laid-le intents (exit + 1) ts m (omega (arith, sim.1)) rest, sim.0)
