-- ===== src/Worker.antt =====
-- src/worker: the consumer of queued submissions.
pub mod Semaphore
pub mod OffsetTracker
pub mod Manager
pub mod Startup
pub mod Restarts
pub mod Task
pub mod Verdicts
