-- ===== src/Servlet.antt =====
-- The dispatch of requests to servlets (src/servlet.cc).
pub mod Dispatch
mod Keeping
pub mod History
mod Tests
