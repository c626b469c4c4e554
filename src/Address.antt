-- ===== src/Address.antt =====
-- Addresses (src/address.cc).
pub mod Lookup
pub mod Names
pub mod Prefix
mod Tests
