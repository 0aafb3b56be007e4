-- ===== src/Tests.antt =====
-- Runs of the program and the theorems at concrete inputs.
mod Worker
mod Judge
mod Execution
mod Database
mod Auth
mod Logins
mod Admission
mod Email
mod Validation
mod Seed
mod Monitoring
mod Cache
mod Submissions
mod Kafka
mod Pipeline
mod Loading
mod Problems
mod Users
