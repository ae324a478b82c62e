-- ===== src/Tests.antt =====
-- The theorems at concrete inputs.
mod Data
mod FleetCalls
mod Requests
mod Boards
mod Settings
mod Access
mod Board
mod Storage
mod Simulation
mod Pages
