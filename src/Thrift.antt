-- ===== src/Thrift.antt =====
-- src/thrift: the compact protocol of Thrift, in which Parquet writes its metadata.
pub mod Types
pub mod Place
pub mod Wire
pub mod Value
pub mod Script
pub mod Encoder
pub mod Decoder
pub mod Skip
pub mod Reach
mod Examples
