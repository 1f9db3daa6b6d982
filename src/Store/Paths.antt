-- ===== src/Store/Paths.antt =====
-- Paths of objects on disk (internal/store/pathsafe.go).
pub mod Filepath
pub mod Buckets
pub mod Segments
pub mod Under
mod Tests
