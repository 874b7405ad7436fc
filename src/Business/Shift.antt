-- ===== src/Business/Shift.antt =====
-- The business date as the calendar date of a shifted time.
use ddochi_backend.Prelude.{
  ℕ, ◌+◌, ◌/◌, ◌%◌, ◌≡◌, ◌≢◌, ◌<◌, ◌≤◌, refl, leb, ◌==◌, Bool-cases, inl, inr, arith,
}
use ddochi_backend.Cron.Clock.{civil, from_timestamp_kst}
use ddochi_backend.Business.Day.{hour_of, date_of, get_business_date, get_dashboard_biz_date}

-- The day of an instant in Korea
unfoldable kst_day : ℕ → ℕ
kst_day at = (at / 1000 + 32400) / 86400

date_of-day : (at : ℕ) → date_of at ≡ civil (kst_day at)
unfolding date_of from_timestamp_kst kst_day
date_of-day at = refl

hour_of-eq : (at : ℕ) → hour_of at ≡ (at / 1000 + 32400) % 86400 / 3600
unfolding hour_of from_timestamp_kst
hour_of-eq at = refl

next_day : (at : ℕ) → 22 ≤ hour_of at → kst_day (at + 86400000) ≡ kst_day (at + 7200000)
unfolding kst_day
next_day at h = let e = hour_of-eq at in omega arith

same_day : (at : ℕ) → hour_of at < 22 → kst_day at ≡ kst_day (at + 7200000)
unfolding kst_day
same_day at h = let e = hour_of-eq at in omega arith

-- The business date of a time is the calendar date two hours later: the day turns at 22:00.
pub get_business_date_shift : (at : ℕ) → get_business_date at ≡ date_of (at + 7200000)
unfolding get_business_date
get_business_date_shift at = elim (Bool-cases (leb 22 (hour_of at))) [
  | inl late ↦
      rw (late, date_of-day (at + 86400000), date_of-day (at + 7200000), next_day at (ground arith))
  | inr early ↦ rw (early, date_of-day at, date_of-day (at + 7200000), same_day at (ground arith))
]

dashboard_day : (at : ℕ) → hour_of at ≡ 22 → kst_day at ≡ kst_day (at + 3600000)
unfolding kst_day
dashboard_day at h = let e = hour_of-eq at in omega arith

other_day : (at : ℕ) → hour_of at ≢ 22 → kst_day (at + 7200000) ≡ kst_day (at + 3600000)
unfolding kst_day
other_day at h = let e = hour_of-eq at in omega arith

-- The date of a dashboard's snapshot, taken in the hour that it is told, is the calendar date one
-- hour later: at 22 o'clock it is still the day that ends.
pub get_dashboard_biz_date_shift :
    (at : ℕ) → get_dashboard_biz_date (hour_of at) at ≡ date_of (at + 3600000)
unfolding get_dashboard_biz_date
get_dashboard_biz_date_shift at = elim (Bool-cases (hour_of at == 22)) [
  | inl hit ↦ rw (hit, date_of-day at, date_of-day (at + 3600000), dashboard_day at (ground arith))
  | inr miss ↦ rw (
    miss,
    get_business_date_shift at,
    date_of-day (at + 7200000),
    date_of-day (at + 3600000),
    other_day at (ground arith),
  )
]
