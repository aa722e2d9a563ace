-- ===== src/Network.antt =====
-- internal/network: the broker's answers to requests.
pub mod Handler
pub mod Produce
pub mod Fetch
pub mod TopicCodec
pub mod Topics
pub mod TopicRequests
pub mod Failover
pub mod GroupRequests
pub mod Operations
pub mod Metadata
pub mod Dispatch
pub mod MetadataFollower
