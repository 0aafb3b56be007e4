-- ===== src/Execution.antt =====
-- src/execution: running a submission in a sandbox.
pub mod Types
pub mod Meta
pub mod Sandbox
pub mod Config
pub mod Batch
