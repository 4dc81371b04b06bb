-- ===== src/Encoding/Rle.antt =====
-- src/encoding/rle.c: the hybrid of run-length encoding and bit packing.
pub mod Format
pub mod Groups
pub mod Encoder
pub mod Decoder
pub mod Levels
pub mod RoundTrip
mod Examples
