-- ===== src/Let.antt =====
-- sandboxd-let: the node agent.
pub mod Types
pub mod Admission
pub mod Runtime
pub mod Sandboxes
pub mod Provision
pub mod Lifecycle
pub mod Logs
pub mod Files
pub mod Firewall
pub mod Validate
pub mod Health
pub mod Ports
pub mod Pages
pub mod Tests
