-- ===== src/Tests.antt =====
-- Runs of the models at concrete inputs, over a small machine arithmetic.
pub mod Toy
pub mod Wire
pub mod Rings
pub mod Stores
pub mod Scores
pub mod Miners
pub mod Registry
pub mod Lines
pub mod Logs
pub mod Agents
pub mod Requests
pub mod Evaluations
pub mod Restarts
