-- ===== src/Cron/Clock.antt =====
-- `datetime.fromtimestamp(ms / 1000, tz=KST)` for times from 1970 on: the proleptic Gregorian
-- calendar of the standard library, on whole milliseconds.
use ddochi_backend.Prelude.{
  ℕ, ◌+◌, ◌-◌, ◌*◌, ◌/◌, ◌%◌, ◌≤◌, ◌≡◌, refl, leb, ltb, arith, if◌then◌else◌,
}

pub record DateTime : Type 0 where
  pub year : ℕ
  pub month : ℕ
  pub day : ℕ
  pub hour : ℕ
  pub minute : ℕ
  pub weekday : ℕ

pub record Date : Type 0 where
  pub year : ℕ
  pub month : ℕ
  pub day : ℕ

-- The day of the year that begins on March 1st
unfoldable pub day_of_march_year : ℕ → ℕ
day_of_march_year doe =
    let yoe = (doe - doe / 1460 + doe / 36524 - doe / 146096) / 365 in
    doe - (365 * yoe + yoe / 4 - yoe / 100)

unfoldable pub month_of : ℕ → ℕ
month_of doy = let mp = (5 * doy + 2) / 153 in if ltb mp 10 then mp + 3 else mp - 9

unfoldable pub day_of : ℕ → ℕ
day_of doy = let mp = (5 * doy + 2) / 153 in doy - (153 * mp + 2) / 5 + 1

-- The date of the day that is `days` after 1970-01-01
unfoldable pub civil : ℕ → Date
unfolding day_of_march_year month_of day_of
civil days =
    let z = days + 719468 in
    let doe = z % 146097 in
    let yoe = (doe - doe / 1460 + doe / 36524 - doe / 146096) / 365 in
    let doy = day_of_march_year doe in
    record {
      year = yoe + z / 146097 * 400 + (if leb (month_of doy) 2 then 1 else 0);
      month = month_of doy;
      day = day_of doy;
    }

unfoldable pub from_timestamp_kst : ℕ → DateTime
unfolding civil
from_timestamp_kst ms =
    let local = ms / 1000 + 32400 in
    let days = local / 86400 in
    let d = civil days in
    record {
      year = d.year;
      month = d.month;
      day = d.day;
      hour = local % 86400 / 3600;
      minute = local % 3600 / 60;
      weekday = (days + 3) % 7;
    }

-- 2026-10-05 09:20 KST, a Monday; 2024-02-29 00:00 KST, a Thursday
leap_day :
    (from_timestamp_kst 1791159600000
      ≡ record { year = 2026; month = 10; day = 5; hour = 9; minute = 20; weekday = 0 })
    × (from_timestamp_kst 1709132400000
        ≡ record { year = 2024; month = 2; day = 29; hour = 0; minute = 0; weekday = 3 })
unfolding from_timestamp_kst
leap_day = (refl, refl)

month_bounds : (doy : ℕ) → doy ≤ 365 → (1 ≤ month_of doy) × (month_of doy ≤ 12)
unfolding month_of
month_bounds doy h = ground arith

day_bounds : (doy : ℕ) → doy ≤ 365 → (1 ≤ day_of doy) × (day_of doy ≤ 31)
unfolding day_of
day_bounds doy h = omega arith
