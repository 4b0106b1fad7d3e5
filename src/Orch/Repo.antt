-- ===== src/Orch/Repo.antt =====
-- The SQLite store (sandboxd-orch/repo).
pub mod Timestamps
pub mod Sandboxes
pub mod Nodes
pub mod Externals
pub mod Invariant
