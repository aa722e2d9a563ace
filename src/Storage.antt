-- ===== src/Storage.antt =====
-- internal/storage: the segmented log.
pub mod Segment
pub mod Log
pub mod LogManager
