-- ===== src/Auth.antt =====
-- exam-env/server/src/backend/auth.rs: agent tokens, sessions, the login limiter and Origin checks.
pub mod Digests
pub mod Limiter
pub mod Sessions
pub mod Origin
