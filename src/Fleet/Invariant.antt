-- ===== src/Fleet/Invariant.antt =====
-- What holds of a fleet after every call, and the calls.
pub mod Boards
pub mod Reports
pub mod Requests
pub mod Calls
