-- ===== src/Gate/Authorization.antt =====
-- gate/authorization.py: execution authorizations.
pub mod Image
pub mod Forbidden
pub mod Subject
pub mod Artifact
pub mod Worktree
pub mod Snapshot
pub mod Reservation
pub mod Draft
