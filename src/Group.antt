-- ===== src/Group.antt =====
-- internal/group/coordinator.go: the consumer groups, their members and the rebalance.
pub mod State
pub mod Joining
pub mod Syncing
pub mod Leaving
pub mod Invariant
pub mod Rebalance
pub mod Sessions
pub mod Steps
