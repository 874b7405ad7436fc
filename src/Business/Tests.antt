-- ===== src/Business/Tests.antt =====
-- 2026-10-05 at 22:30 in Korea
use ddochi_backend.Prelude.{ℕ, ◌≡◌, ◌+◌, refl}
use ddochi_backend.Business.Day.{hour_of, date_of, get_business_date}
use ddochi_backend.Business.Shift.{get_business_date_shift}

abbrev late_evening : ℕ
late_evening = 1791207000000

evening_date : get_business_date late_evening ≡ record { year = 2026; month = 10; day = 6 }
unfolding get_business_date hour_of date_of ddochi_backend.Cron.Clock.from_timestamp_kst
evening_date = refl

get_business_date_shift_example : get_business_date late_evening ≡ date_of (late_evening + 7200000)
get_business_date_shift_example = get_business_date_shift late_evening
