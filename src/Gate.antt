-- ===== src/Gate.antt =====
-- The pre-execution gate: gate/*.py.
pub mod Verdict
pub mod Limitations
pub mod Decision
pub mod Authorization
pub mod Discovery
pub mod Evaluator
pub mod SandboxEvidence
