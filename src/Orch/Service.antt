-- ===== src/Orch/Service.antt =====
-- The control plane (sandboxd-orch/service).
pub mod Requests
pub mod Ports
pub mod Clients
pub mod Health
pub mod Delete
pub mod Scheduler
pub mod Sync
pub mod NodeOps
pub mod Safety
