-- ===== src/SocketStream.antt =====
-- src/socket_stream.cc, include/socket_stream.h: a stream on a connected socket.
pub mod Calls
pub mod Receive
mod Tests
