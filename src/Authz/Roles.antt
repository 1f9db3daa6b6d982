-- ===== src/Authz/Roles.antt =====
-- The role switches of internal/kernel/authz: each role's permission test.
pub mod Switch
pub mod Basic
pub mod Identity
pub mod Telemetry
pub mod Runtime
pub mod Storage
pub mod Delivery
