-- ===== src/Store/Secrets.antt =====
-- The Secret Manager tables of internal/store/secrets.go.
pub mod Types
pub mod Names
pub mod Catalog
pub mod Versions
pub mod Numbering
pub mod Invariant
pub mod Adding
pub mod Lifecycle
pub mod Access
pub mod History
mod Tests
