-- ===== src/Topic.antt =====
-- internal/topic: the registry of topics, and which brokers keep the replicas of a partition. A clone
-- of a topic is the topic: nothing here writes through the shared slices.
pub mod Assign
pub mod Registry
