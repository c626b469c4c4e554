-- ===== src/Log.antt =====
-- The logger (src/Log.cc).
pub mod Pattern
pub mod PatternLaws
mod Tests
