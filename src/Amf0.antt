-- ===== src/Amf0.antt =====
-- crates/amf0: the values of AMF0, `Amf0Decoder` and `Amf0Encoder`.
pub mod Define
pub mod Encode
pub mod Decode
pub mod Layout
pub mod RoundTrip
pub mod Written
pub mod Total
