-- ===== src/Judge.antt =====
-- src/judge: what turns a submission into a verdict.
pub mod Normalize
pub mod Verdict
pub mod Service
pub mod TestCases
