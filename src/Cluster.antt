-- ===== src/Cluster.antt =====
-- internal/cluster: who belongs to the cluster, who is alive, who is the controller, and the log of the
-- changes of topics.
pub mod Membership
pub mod Liveness
pub mod MetadataLog
