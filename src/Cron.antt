-- ===== src/Cron.antt =====
-- The cron router (cron_router_py): expressions, the look-back search and one tick of the runner.
pub mod Field
pub mod Clock
pub mod Match
pub mod Recent
pub mod Jobs
pub mod Claims
pub mod Runner
pub mod Unread
pub mod Ticks
mod Tests
