-- ===== src/Url.antt =====
-- src/util.cc: the URL codec.
pub mod Tables
pub mod Codec
pub mod RoundTrip
pub mod Reserved
mod Tests
