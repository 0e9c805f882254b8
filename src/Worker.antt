-- ===== src/Worker.antt =====
-- voxcpm_runtime/worker_*.py: the parent's side of one worker process.
pub mod Types
pub mod Errors
pub mod Platform
pub mod Client
pub mod Factory
pub mod Process
