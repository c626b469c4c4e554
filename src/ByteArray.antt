-- ===== src/ByteArray.antt =====
-- src/bytearray.cc, include/bytearray.h: a byte buffer on a linked list of fixed-size nodes.
pub mod State
pub mod Overwrite
pub mod Valid
pub mod Writing
pub mod Growing
pub mod Write
pub mod Reading
pub mod Read
pub mod Position
pub mod Stream
pub mod Fixed
pub mod Zigzag
pub mod Varint
pub mod VarintLaws
pub mod Strings
pub mod Buffers
pub mod Windows
mod Tests
