-- ===== src/Orch.antt =====
-- The orchestrator (sandboxd-orch).
pub mod Types
pub mod Settings
pub mod Cache
pub mod Tables
pub mod World
pub mod Repo
pub mod Service
pub mod Tests
