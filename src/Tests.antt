-- ===== src/Tests.antt =====
-- Runs of the theorems on one small database, which their hypotheses hold of.
pub mod Data
pub mod Eras
pub mod Recordings
pub mod Prompts
pub mod Work
pub mod Reports
pub mod Histories
pub mod Calls
pub mod Coding
pub mod Analyses
pub mod Logins
pub mod Pushes
pub mod Ingestion
