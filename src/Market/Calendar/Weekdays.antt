-- ===== src/Market/Calendar/Weekdays.antt =====
-- The rules for moving and observed holidays give the weekday and the week that they name.
use protocol_monitor.Common.{ℕ, ◌+◌, ◌-◌, ◌*◌, ◌≤◌, ◌<◌, ◌≡◌, arith}
use protocol_monitor.Market.Calendar.{
  Date, days_before_month, weekday_of, year_length, nth_weekday, last_weekday,
  observed_fixed_holiday,
}

-- If the year goes on for `occurrence` weeks from the first of the month, `_nth_weekday` gives a date
-- of that year with the weekday asked for, in the `occurrence`-th week from the first of the month.
pub nth_weekday_lem :
    (year month weekday occurrence : ℕ)
    → weekday < 7
    → 1 ≤ occurrence
    → days_before_month year month + 7 * occurrence ≤ year_length year
    → let d = nth_weekday year month weekday occurrence in
      (weekday_of d ≡ weekday)
      × (d.year ≡ year)
      × (days_before_month year month + 7 * (occurrence - 1) < d.day)
      × (d.day ≤ days_before_month year month + 7 * occurrence)
unfolding nth_weekday
nth_weekday_lem year month weekday occurrence w o fits =
    let b = days_before_month year month in ground arith

-- The observed day of a holiday that is neither the first nor the last day of its year is a weekday
-- of that year at most one day away, and the holiday itself if that is a weekday.
pub observed_fixed_holiday_lem :
    (d : Date)
    → 1 < d.day
    → d.day < year_length d.year
    → let o = observed_fixed_holiday d in
      (weekday_of o < 5)
      × (o.year ≡ d.year)
      × (o.day ≤ d.day + 1)
      × (d.day ≤ o.day + 1)
      × (weekday_of d < 5 → o ≡ d)
unfolding observed_fixed_holiday
observed_fixed_holiday_lem d low high = ground arith

-- For a month before December that ends past the first week of the year, `_last_weekday` gives a
-- date of that year with the weekday asked for, within the last seven days of the month.
pub last_weekday_lem :
    (year month weekday : ℕ)
    → month < 12
    → weekday < 7
    → 8 ≤ days_before_month year (month + 1)
    → let d = last_weekday year month weekday in
      (weekday_of d ≡ weekday)
      × (d.year ≡ year)
      × (days_before_month year (month + 1) < d.day + 7)
      × (d.day ≤ days_before_month year (month + 1))
unfolding last_weekday
last_weekday_lem year month weekday m w room =
    let b = days_before_month year (month + 1) in ground arith
