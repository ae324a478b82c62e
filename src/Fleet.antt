-- ===== src/Fleet.antt =====
-- exam-env/server/src/backend/fleet.rs: boards, jobs, exams and the activity log.
pub mod Model
pub mod Log
pub mod Exams
pub mod Beat
pub mod Heartbeat
pub mod Tick
pub mod Enqueue
pub mod Admin
pub mod Views
pub mod Invariant
pub mod Once
