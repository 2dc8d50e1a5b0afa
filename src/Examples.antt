-- ===== src/Examples.antt =====
-- Inputs at which the code is run, and the theorems applied to them.
pub mod Artifacts
pub mod SandboxRuns
pub mod SandboxReports
pub mod Validators
pub mod Authorizations
pub mod Verdicts
pub mod Evaluations
pub mod Behavior
pub mod Containers
pub mod Discoveries
pub mod NormalizedRuns
