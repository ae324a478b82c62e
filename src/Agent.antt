-- ===== src/Agent.antt =====
-- The daemon on a board: exam-env/seb-agent/src/main.rs and stats.rs.
pub mod Loop
pub mod Reports
pub mod Delivery
pub mod Running
pub mod Stats
