-- ===== src/Auth.antt =====
-- Signing in: `api/auth/` and `api/views/auth.py`.
pub mod Tokens
pub mod Login
pub mod SigningIn
pub mod Checks
pub mod Sessions
pub mod Permissions
mod Tests
