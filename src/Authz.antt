-- ===== src/Authz.antt =====
-- The IAM evaluator of internal/kernel/authz.
pub mod Policy
pub mod Condition
pub mod Members
pub mod Roles
pub mod Grants
pub mod Chain
pub mod Evaluate
pub mod Membership
pub mod Allowed
pub mod Decision
pub mod Ancestry
pub mod Minting
pub mod Requests
pub mod Conditions
pub mod Inheritance
pub mod Lab
mod Tests
