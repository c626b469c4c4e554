-- ===== src/Hook.antt =====
-- The hooked system calls (src/hook.cc).
pub mod Io
pub mod Waiting
pub mod Retry
pub mod Sockets
mod Tests
pub mod Flags
pub mod View
pub mod Connect
pub mod Closing
