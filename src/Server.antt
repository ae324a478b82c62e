-- ===== src/Server.antt =====
-- The server around the fleet: exam-env/server/src/backend/mod.rs, http.rs, store.rs and app/api.rs.
pub mod State
pub mod Store
pub mod Http
pub mod Guard
pub mod Boards
pub mod Gate
pub mod Login
pub mod Api
