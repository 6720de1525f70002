-- ===== src/Rtmp.antt =====
-- crates/rtmp: the chunk layer of RTMP and the messages above it.
pub mod Messages
pub mod Chunk
pub mod Control
pub mod Commands
