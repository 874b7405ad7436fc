-- ===== src/Buttons.antt =====
-- The signed buttons of the bot: what signs them, what verifies them, and what a tap leads to.
pub mod Signing
pub mod Callback
pub mod RoundTrip
pub mod Accepting
mod Tests
