-- ===== src/Store/Hierarchy.antt =====
-- The resource hierarchy and the organization policies: the Cloud Resource Manager part of
-- internal/store/appengine_crm.go, and internal/store/orgpolicy.go.
pub mod Types
pub mod Organizations
pub mod Folders
pub mod Search
pub mod Parents
pub mod Specs
pub mod Policies
pub mod Enforcement
pub mod Normal
pub mod Inherited
mod Tests
