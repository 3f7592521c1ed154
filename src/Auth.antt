-- ===== src/Auth.antt =====
-- apps/api: the refresh tokens of a session.
pub mod Tokens
mod Tests
