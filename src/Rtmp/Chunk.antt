-- ===== src/Rtmp/Chunk.antt =====
-- crates/rtmp/src/chunk: messages cut into chunks, and put together again.
pub mod Define
pub mod Encoder
pub mod Decoder
pub mod ReadChunk
pub mod Headers
pub mod Frames
pub mod RoundTrip
pub mod Bounds
pub mod Ends
