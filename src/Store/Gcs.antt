-- ===== src/Store/Gcs.antt =====
-- The Cloud Storage buckets and objects of internal/store/gcs.go.
pub mod Types
pub mod Buckets
pub mod Lookup
pub mod Objects
pub mod Metadata
pub mod Newest
pub mod Revised
pub mod Calls
pub mod Held
pub mod Kept
pub mod Policies
pub mod Locked
pub mod Blobs
pub mod Wrapped
mod Tests
