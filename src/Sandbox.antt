-- ===== src/Sandbox.antt =====
-- sandbox/: what a command observed in the sandbox may have done, and which image it may run in.
pub mod Runtime
pub mod Labels
pub mod Guards
pub mod Policy
pub mod Observer
pub mod Behavior
pub mod Docker
