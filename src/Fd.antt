-- ===== src/Fd.antt =====
-- src/fdmanager.cc, include/fdmanager.h: what the framework knows of each file descriptor.
pub mod Context
pub mod Manager
pub mod Lookup
mod Tests
