-- ===== src/Business/Day.antt =====
-- `api/util/business_date.py`: a time is an instant, seen in Korea; a date is not yet a text.
use ddochi_backend.Prelude.{ℕ, ◌+◌, leb, ◌==◌, if◌then◌else◌}
use ddochi_backend.Cron.Clock.{Date, from_timestamp_kst}

-- BUSINESS_DAY_BOUNDARY_HOUR
abbrev pub business_day_boundary_hour : ℕ
business_day_boundary_hour = 22

-- `at.hour`
unfoldable pub hour_of : ℕ → ℕ
hour_of at = (from_timestamp_kst at).hour

-- `at.date()`
unfoldable pub date_of : ℕ → Date
date_of at = record {
  year = (from_timestamp_kst at).year;
  month = (from_timestamp_kst at).month;
  day = (from_timestamp_kst at).day;
}

unfoldable pub get_business_date : ℕ → Date
get_business_date at =
    if leb business_day_boundary_hour (hour_of at) then date_of (at + 86400000) else date_of at

unfoldable pub get_dashboard_biz_date : (cur_hour at : ℕ) → Date
get_dashboard_biz_date cur_hour at =
    if cur_hour == business_day_boundary_hour then date_of at else get_business_date at
