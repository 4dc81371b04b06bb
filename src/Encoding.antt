-- ===== src/Encoding.antt =====
-- src/encoding: the encodings of data pages.
pub mod Rle
pub mod Delta
pub mod ByteStreamSplit
