-- ===== src/Sim.antt =====
-- The simulated boards: exam-env/sim-agent/src/main.rs.
pub mod Floats
pub mod Rng
pub mod Options
pub mod Board
pub mod Round
pub mod Stepping
pub mod Turns
pub mod Delivery
