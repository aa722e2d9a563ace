-- ===== src/Replication.antt =====
-- internal/replication: followers, and what a leader knows of them.
pub mod PartitionState
pub mod Fetcher
pub mod Manager
