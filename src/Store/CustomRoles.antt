-- ===== src/Store/CustomRoles.antt =====
-- The project roles of internal/store/iam_roles.go, which the evaluator reads as its role store.
pub mod Types
pub mod Roles
pub mod Granted
pub mod Created
pub mod Revoked
mod Tests
