-- ===== src/Market/Calendar.antt =====
-- The exchange calendar of app/market/xnys_calendar.py. A date is its year and its day of the year,
-- from 1; the sums of `timedelta` days that the code takes stay below a year. A time is a date with
-- its minute of the day in New York. The caches of `_holidays` and `_early_closes` are left out.
pub mod Weekdays
pub mod BlackFriday
mod Tests
use protocol_monitor.Common.{
  ℕ, suc, ◌+◌, ◌-◌, ◌*◌, ◌/◌, ◌%◌, Bool, true, false, not, ◌&&◌, ◌||◌, Option, none, some, List, [],
  ◌∷◌, ◌++◌, any_of, get_or, ltb, leb, ◌==◌, if◌then◌else◌,
}

pub record Date : Type 0 where
  pub year : ℕ
  pub day : ℕ

abbrev pub same_date : Date → Date → Bool
same_date a b = a.year == b.year && a.day == b.day

pub is_leap : ℕ → Bool
is_leap year = year % 4 == 0 && (not (year % 100 == 0) || year % 400 == 0)

abbrev pub year_length : ℕ → ℕ
year_length year = if is_leap year then 366 else 365

-- The days of the Gregorian calendar before a year.
pub days_before_year : ℕ → ℕ
days_before_year year = let y = year - 1 in 365 * y + y / 4 + y / 400 - y / 100

-- The days of a year before a month.
abbrev pub days_before_month : ℕ → ℕ → ℕ
days_before_month year month =
    get_or (0 ∷ 31 ∷ 59 ∷ 90 ∷ 120 ∷ 151 ∷ 181 ∷ 212 ∷ 243 ∷ 273 ∷ 304 ∷ 334 ∷ []) (month - 1) 0
    + (if ltb 2 month && is_leap year then 1 else 0)

-- `date(year, month, day)`
abbrev pub date : ℕ → ℕ → ℕ → Date
date year month day = record { year = year; day = days_before_month year month + day }

-- `weekday()`: 0 is Monday.
abbrev pub weekday_of : Date → ℕ
weekday_of d = (days_before_year d.year + d.day + 6) % 7

-- `+ timedelta(days=n)` and `- timedelta(days=n)`
abbrev pub plus_days : Date → ℕ → Date
plus_days d n =
    if leb (d.day + n) (year_length d.year)
    then record { year = d.year; day = d.day + n }
    else record { year = suc d.year; day = d.day + n - year_length d.year }

abbrev pub minus_days : Date → ℕ → Date
minus_days d n =
    if ltb n d.day
    then record { year = d.year; day = d.day - n }
    else record { year = d.year - 1; day = d.day + year_length (d.year - 1) - n }

-- `_nth_weekday`
unfoldable pub nth_weekday : ℕ → ℕ → ℕ → ℕ → Date
nth_weekday year month weekday occurrence =
    let first = date year month 1 in
    let offset = (weekday + 7 - weekday_of first) % 7 in
    plus_days first (offset + 7 * (occurrence - 1))

-- `_last_weekday`
unfoldable pub last_weekday : ℕ → ℕ → ℕ → Date
last_weekday year month weekday =
    let first_next_month = if month == 12 then date (year + 1) 1 1 else date year (month + 1) 1 in
    let last = minus_days first_next_month 1 in
    minus_days last ((weekday_of last + 7 - weekday) % 7)

-- `_observed_fixed_holiday`
unfoldable pub observed_fixed_holiday : Date → Date
observed_fixed_holiday holiday =
    if weekday_of holiday == 5
    then minus_days holiday 1
    else if weekday_of holiday == 6
    then plus_days holiday 1
    else holiday

-- `(h + l - 7 * m + 114)` of `_easter_sunday`.
unfoldable pub easter_number : ℕ → ℕ
easter_number year =
    let a = year % 19 in
    let b = year / 100 in
    let c = year % 100 in
    let d = b / 4 in
    let e = b % 4 in
    let f = (b + 8) / 25 in
    let g = (b + 1 - f) / 3 in
    let h = (19 * a + b + 15 - d - g) % 30 in
    let i = c / 4 in
    let k = c % 4 in
    let l = (32 + 2 * e + 2 * i - h - k) % 7 in
    let m = (a + 11 * h + 22 * l) / 451 in h + l + 114 - 7 * m

-- `_easter_sunday`
unfoldable pub easter_sunday : ℕ → Date
easter_sunday year = let number = easter_number year in date year (number / 31) (number % 31 + 1)

-- Lines 53 to 57.
unfoldable pub new_year_holidays : ℕ → List Date
new_year_holidays year =
    let new_year = date year 1 1 in
    if weekday_of new_year == 6
    then plus_days new_year 1 ∷ []
    else if ltb (weekday_of new_year) 5
    then new_year ∷ []
    else []

-- Lines 44 to 51.
abbrev pub moving_holidays : ℕ → List Date
moving_holidays year =
    nth_weekday year 1 0 3
    ∷ nth_weekday year 2 0 3
    ∷ minus_days (easter_sunday year) 2
    ∷ last_weekday year 5 0
    ∷ nth_weekday year 9 0 1
    ∷ nth_weekday year 11 3 4
    ∷ []

-- Lines 59 to 62.
abbrev pub fixed_holidays : ℕ → List Date
fixed_holidays year =
    (if leb 2022 year then observed_fixed_holiday (date year 6 19) ∷ [] else [])
    ++ (observed_fixed_holiday (date year 7 4) ∷ observed_fixed_holiday (date year 12 25) ∷ [])

-- `_holidays`
unfoldable pub holidays : ℕ → List Date
holidays year = moving_holidays year ++ (new_year_holidays year ++ fixed_holidays year)

-- `is_xnys_trading_day`
unfoldable pub is_xnys_trading_day : Date → Bool
is_xnys_trading_day d = ltb (weekday_of d) 5 && not (any_of (same_date d) (holidays d.year))

abbrev pub if_trading : Date → List Date
if_trading d = if is_xnys_trading_day d then d ∷ [] else []

-- `_early_closes`
unfoldable pub early_closes : ℕ → List Date
early_closes year =
    if_trading (plus_days (nth_weekday year 11 3 4) 1)
    ++ (if_trading (date year 12 24) ++ if_trading (date year 7 3))

pub record Time : Type 0 where
  pub session_date : Date
  pub minute : ℕ

pub record XnysSession : Type 0 where
  pub session_date : Date
  pub open_time : Time
  pub close_time : Time
  pub early_close : Bool

abbrev pub regular_open : ℕ
regular_open = 9 * 60 + 30

abbrev pub regular_close : ℕ
regular_close = 16 * 60

abbrev pub early_closing : ℕ
early_closing = 13 * 60

-- `xnys_session`
unfoldable pub xnys_session : Date → Option XnysSession
xnys_session d =
    if not (is_xnys_trading_day d)
    then none
    else let early_close = any_of (same_date d) (early_closes d.year) in
      let close = if early_close then early_closing else regular_close in
      some (record {
        session_date = d;
        open_time = record { session_date = d; minute = regular_open };
        close_time = record { session_date = d; minute = close };
        early_close = early_close;
      })
