-- ===== src/Core.antt =====
-- src/core: byte order and variable-length integers, the growable buffer, bit packing.
pub mod Status
pub mod Endian
pub mod Buffer
pub mod Bitpack
pub mod BitStream
