-- ===== src/Evidence.antt =====
-- The evidence model: evidence/*.py.
pub mod Validation
pub mod SandboxRun
