-- ===== src/Business.antt =====
-- The business day of reports and dashboards: `api/util/business_date.py`.
pub mod Day
pub mod Shift
mod Tests
