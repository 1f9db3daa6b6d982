-- ===== src/Store/Kms.antt =====
-- The Cloud KMS tables of internal/store/kms.go.
pub mod Types
pub mod Keys
pub mod Vault
pub mod Refinement
pub mod Material
mod Tests
