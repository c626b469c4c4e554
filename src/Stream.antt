-- ===== src/Stream.antt =====
-- src/stream.cc, include/stream.h: moving a fixed number of bytes through a stream.
pub mod FixSize
pub mod Ending
mod Tests
