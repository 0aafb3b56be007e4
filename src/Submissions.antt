-- ===== src/Submissions.antt =====
-- src/submissions: storing, listing and submitting.
pub mod Repository
pub mod Pages
pub mod Solved
pub mod Submit
pub mod Service
pub mod Bounds
