-- ===== src/Sarang.antt =====
-- Prospects (사랑이): `api/views/assets.py` from the first call on, and the buttons of the bot for
-- them (`api/views/internal_telegram.py`, `api/telegram/match_result_input.py`).
pub mod Tables
pub mod Attempts
pub mod Approval
pub mod Results
pub mod Ordering
pub mod Logs
pub mod Labels
pub mod Submit
pub mod Teacher
pub mod Editing
pub mod Active
pub mod Mild
pub mod Steps
pub mod Lifecycle
pub mod Cards
pub mod Funnel
pub mod Undo
pub mod Cutting
pub mod Taps
pub mod ResultTaps
pub mod Bot
pub mod Calls
pub mod Tapping
mod Tests
