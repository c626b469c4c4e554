-- ===== src/HttpSession.antt =====
-- Receiving a request (src/http_session.cc).
pub mod Receive
mod Contract
mod Incoming
mod Body
pub mod Answer
pub mod Send
pub mod Sent
mod Tests
