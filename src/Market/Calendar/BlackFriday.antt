-- ===== src/Market/Calendar/BlackFriday.antt =====
-- Thanksgiving and the day after it, in every year.
use protocol_monitor.Common.{
  ℕ, ◌+◌, ◌-◌, ◌*◌, ◌/◌, ◌%◌, ◌≤◌, ◌<◌, ◌≡◌, ◌≢◌, ◌⊎◌, refl, true, false, ◌||◌, none, some, List,
  [], ◌∷◌, ◌++◌, any_of, All, arith,
}
use protocol_monitor.Market.Calendar.{
  Date, date, same_date, days_before_month, weekday_of, plus_days, minus_days, nth_weekday,
  easter_number, easter_sunday, new_year_holidays, moving_holidays, fixed_holidays, holidays,
  is_xnys_trading_day, early_closes, XnysSession, xnys_session, early_closing, regular_open,
}
use protocol_monitor.Market.Calendar.Weekdays.{
  nth_weekday_lem, last_weekday_lem, observed_fixed_holiday_lem,
}

easter_number_bounds : (year : ℕ) → (93 ≤ easter_number year) × (easter_number year < 155)
unfolding easter_number
easter_number_bounds year =
    let h =
      (19 * (year % 19)
        + year / 100
        + 15
        - year / 100 / 4
        - (year / 100 + 1 - (year / 100 + 8) / 25) / 3)
      % 30 in
    let l = (32 + 2 * (year / 100 % 4) + 2 * (year % 100 / 4) - h - year % 100 % 4) % 7 in
    omega arith

-- No holiday but Thanksgiving falls on one of these days of the year.
abbrev Misses : Date → Type 0
Misses h = (0 < h.day) × ((h.day < 320) ⊎ (350 < h.day))

abbrev thanksgiving : ℕ → Date
thanksgiving year = nth_weekday year 11 3 4

thanksgiving_lem :
    (year : ℕ)
    → let d = thanksgiving year in
      (weekday_of d ≡ 3) × (d.year ≡ year) × (325 < d.day) × (d.day < 334)
thanksgiving_lem year =
    let (w, y, low, high) =
      nth_weekday_lem year 11 3 4 (omega arith) (omega arith) (ground arith) in
    (w, y, ground arith, ground arith)

early_weekday :
    (year month weekday occurrence : ℕ)
    → weekday < 7
    → 1 ≤ occurrence
    → days_before_month year month + 7 * occurrence < 320
    → Misses (nth_weekday year month weekday occurrence)
early_weekday year month weekday occurrence w o early =
    ground (arith, nth_weekday_lem year month weekday occurrence)

easter-Misses : (year : ℕ) → Misses (minus_days (easter_sunday year) 2)
unfolding easter_sunday
easter-Misses year = let (low, high) = easter_number_bounds year in ground arith

new_year-Misses : (year : ℕ) → All Misses (new_year_holidays year)
unfolding new_year_holidays
new_year-Misses year = ground arith

fixed-Misses : (year : ℕ) → All Misses (fixed_holidays year)
fixed-Misses year = ground (
  arith,
  observed_fixed_holiday_lem (date year 6 19),
  observed_fixed_holiday_lem (date year 7 4),
  observed_fixed_holiday_lem (date year 12 25),
)

abbrev the_day : ℕ → ℕ → Date
the_day year n = record { year = year; day = n }

any_of-Apart :
    (d : Date) (hs : List Date)
    → All (λ (h : Date). same_date d h ≡ false) hs
    → any_of (same_date d) hs ≡ false
any_of-Apart d [] a = refl
any_of-Apart d (h ∷ hs) (a, rest) = rw (a, any_of-Apart d hs rest) refl

Misses-Apart :
    (year n : ℕ) (h : Date) → 320 ≤ n → n < 350 → Misses h → same_date (the_day year n) h ≡ false
Misses-Apart year n h low high miss = ground arith

moving_holidays-same_date :
    (year : ℕ) (n : ℕ)
    → 320 ≤ n
    → n < 350
    → n ≢ (thanksgiving year).day
    → any_of (same_date (the_day year n)) (moving_holidays year) ≡ false
moving_holidays-same_date year n low high other =
    let january = early_weekday year 1 0 3 (omega arith) (omega arith) (ground arith) in
    let february = early_weekday year 2 0 3 (omega arith) (omega arith) (ground arith) in
    let easter = easter-Misses year in
    let may = last_weekday_lem year 5 0 (omega arith) (omega arith) (ground arith) in
    let september = early_weekday year 9 0 1 (omega arith) (omega arith) (ground arith) in
    let d = the_day year n in
    any_of-Apart d (moving_holidays year) (
      Misses-Apart year n _ low high january,
      (
        Misses-Apart year n _ low high february,
        (
          Misses-Apart year n _ low high easter,
          (
            Misses-Apart year n _ low high (ground (arith, may)),
            (Misses-Apart year n _ low high september, (ground arith, tt)),
          ),
        ),
      ),
    )

any_of-Misses :
    (year n : ℕ) (hs : List Date)
    → 320 ≤ n
    → n < 350
    → All Misses hs
    → any_of (same_date (the_day year n)) hs ≡ false
any_of-Misses year n [] low high miss = refl
any_of-Misses year n (h ∷ hs) low high (miss, misses) =
    ground (arith, any_of-Misses year n hs low high misses)

any_of-append :
    (d : Date) (xs ys : List Date)
    → any_of (same_date d) (xs ++ ys) ≡ (any_of (same_date d) xs || any_of (same_date d) ys)
any_of-append d [] ys = refl
any_of-append d (x ∷ xs) ys = ground (arith, any_of-append d xs ys)

abbrev black_friday : ℕ → Date
black_friday year = record { year = year; day = (thanksgiving year).day + 1 }

black_friday-plus_days : (year : ℕ) → plus_days (thanksgiving year) 1 ≡ black_friday year
black_friday-plus_days year = let (w, y, low, high) = thanksgiving_lem year in ground arith

black_friday-is_xnys_trading_day : (year : ℕ) → is_xnys_trading_day (black_friday year) ≡ true
unfolding is_xnys_trading_day holidays
black_friday-is_xnys_trading_day year =
    let (w, y, low, high) = thanksgiving_lem year in
    let d = (thanksgiving year).day + 1 in
    let moving = moving_holidays-same_date year d (omega arith) (omega arith) (omega arith) in
    let new_year =
      any_of-Misses year d (new_year_holidays year) (omega arith) (omega arith)
        (new_year-Misses year) in
    let fixed =
      any_of-Misses year d (fixed_holidays year) (omega arith) (omega arith) (fixed-Misses year) in
    rw
      (
        any_of-append (black_friday year) (moving_holidays year)
            (new_year_holidays year ++ fixed_holidays year),
        any_of-append (black_friday year) (new_year_holidays year) (fixed_holidays year),
        moving,
        new_year,
        fixed,
      )
      (ground arith)

thanksgiving-is_xnys_trading_day : (year : ℕ) → is_xnys_trading_day (thanksgiving year) ≡ false
unfolding is_xnys_trading_day holidays
thanksgiving-is_xnys_trading_day year =
    let (w, y, low, high) = thanksgiving_lem year in rw y (ground arith)

is_early : (year : ℕ) → any_of (same_date (black_friday year)) (early_closes year) ≡ true
unfolding early_closes
is_early year =
    rw (black_friday-plus_days year, black_friday-is_xnys_trading_day year) (ground arith)

-- In every year there is no session on Thanksgiving, and one that closes early at 13:00 on the day
-- after it.
pub xnys_session_thanksgiving :
    (year : ℕ)
    → (xnys_session (nth_weekday year 11 3 4) ≡ none)
      × ((s : XnysSession) × (xnys_session (plus_days (nth_weekday year 11 3 4) 1) ≡ some s)
          × (s.early_close ≡ true)
          × (s.close_time.minute ≡ 13 * 60))
unfolding xnys_session
xnys_session_thanksgiving year = (
  rw (thanksgiving-is_xnys_trading_day year) refl,
  (
    record {
      session_date = black_friday year;
      open_time = record { session_date = black_friday year; minute = regular_open };
      close_time = record { session_date = black_friday year; minute = early_closing };
      early_close = true;
    },
    rw (black_friday-plus_days year, black_friday-is_xnys_trading_day year)
        (rw (is_early year) refl),
    refl,
    refl,
  ),
)
