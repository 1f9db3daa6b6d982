-- ===== src/Store.antt =====
-- The SQL store of internal/store.
pub mod Stamps
pub mod StampOrder
pub mod Numerals
pub mod Seal
pub mod Secrets
pub mod Kms
pub mod Hierarchy
pub mod CustomRoles
pub mod Paths
pub mod PubSub
pub mod Gcs
pub mod Lab
mod Tests
