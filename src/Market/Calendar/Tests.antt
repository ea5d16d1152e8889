-- ===== src/Market/Calendar/Tests.antt =====
-- The calendar in some years.
use protocol_monitor.Common.{◌≡◌, ◌*◌, refl, true, false, none, some}
use protocol_monitor.Market.Calendar.{
  date, plus_days, days_before_year, is_leap, nth_weekday, last_weekday, observed_fixed_holiday,
  easter_number, easter_sunday, new_year_holidays, holidays, is_xnys_trading_day, XnysSession,
  xnys_session,
}
use protocol_monitor.Market.Calendar.BlackFriday.{xnys_session_thanksgiving}

-- 31 March 2024
easter_of_2024 : easter_sunday 2024 ≡ date 2024 3 31
unfolding easter_sunday easter_number is_leap
easter_of_2024 = refl

-- Saturday, 4 July 2026 is observed on Friday.
closed_on_3_july : is_xnys_trading_day (date 2026 7 3) ≡ false
unfolding is_xnys_trading_day holidays observed_fixed_holiday nth_weekday last_weekday easter_sunday
    easter_number new_year_holidays is_leap days_before_year
closed_on_3_july = refl

xnys_session_thanksgiving_example :
    (xnys_session (nth_weekday 2025 11 3 4) ≡ none)
    × ((s : XnysSession) × (xnys_session (plus_days (nth_weekday 2025 11 3 4) 1) ≡ some s)
        × (s.early_close ≡ true)
        × (s.close_time.minute ≡ 13 * 60))
xnys_session_thanksgiving_example = xnys_session_thanksgiving 2025
