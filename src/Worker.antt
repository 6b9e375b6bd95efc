-- ===== src/Worker.antt =====
-- app/worker: the tasks that the queue runs.
mod Tests
pub mod Tasks
pub mod Wiring
pub mod Journey
