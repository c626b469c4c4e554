-- ===== src/Socket.antt =====
-- Sockets (src/socket.cc).
pub mod State
pub mod Owning
mod Tests
