-- ===== src/Store/PubSub.antt =====
-- The Pub/Sub tables of internal/store/pubsub.go.
pub mod Types
pub mod Filter
pub mod Topics
pub mod Subscriptions
pub mod Publish
pub mod Pull
pub mod Leases
pub mod Snapshots
pub mod Copies
pub mod Published
pub mod Moves
pub mod Leasing
pub mod Exclusive
pub mod LeaseLaws
pub mod Matching
pub mod DeadLetter
pub mod Valid
pub mod ValidSettings
pub mod ValidNames
pub mod ValidSubscriptions
pub mod ValidPublish
pub mod ValidPull
pub mod ValidLeases
pub mod PullTotal
pub mod Undisturbed
pub mod Calls
pub mod Steps
pub mod Quiet
pub mod LeaseHeld
pub mod WholeSecond
mod Tests
