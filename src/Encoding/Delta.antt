-- ===== src/Encoding/Delta.antt =====
-- DELTA_BINARY_PACKED of src/encoding/delta.c. A signed integer of 64 bits is its word, and one of
-- 32 bits too; sums and differences wrap around, as the source has them on unsigned words.
pub mod Encoder
pub mod Decoder
