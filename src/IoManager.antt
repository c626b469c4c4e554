-- ===== src/IoManager.antt =====
-- src/IoManager.cc, include/IoManager.h: which descriptors are watched for what.
pub mod Events
pub mod Cancel
pub mod Counting
pub mod Validity
pub mod Cleared
pub mod Reach
pub mod Idle
pub mod Round
mod Tests
