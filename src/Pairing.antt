-- ===== src/Pairing.antt =====
-- Telegram pairing: `api/views/telegram_pair.py` and `api/views/telegram_pair_internal.py`.
pub mod Channels
pub mod Config
pub mod Rows
pub mod Bearer
pub mod Admin
pub mod Welcome
pub mod Complete
pub mod Fields
pub mod Completing
pub mod Steps
pub mod Fresh
pub mod Connecting
mod Tests
