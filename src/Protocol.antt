-- ===== src/Protocol.antt =====
-- internal/protocol: the primitive types of the wire, headers, frames and record batches.
pub mod Errors
pub mod Result
pub mod Bytes
pub mod Types
pub mod Varint
pub mod Header
pub mod Frame
pub mod RecordBatch
