-- ===== src/Trim.antt =====
-- The trimming of texts (src/util.cc).
pub mod Strip
pub mod Edges
mod Tests
