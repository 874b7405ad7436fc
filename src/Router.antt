-- ===== src/Router.antt =====
-- The bot router: `tel_router_py/`, from the update that Telegram delivers to the request to the
-- main service.
pub mod Words
pub mod Commands
pub mod Webhook
pub mod Redelivery
pub mod Reading
mod Tests
