-- ===== src/BytesUtil.antt =====
-- crates/bytes-util: reading and writing single bits of a byte stream.
pub mod Bits
pub mod BitReader
pub mod BitWriter
pub mod RoundTrip
pub mod BytesCursor
pub mod Parser
pub mod Writer
