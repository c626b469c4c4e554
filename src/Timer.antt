-- ===== src/Timer.antt =====
-- src/timer.cc, include/timer.h: timers in a set ordered by their deadline.
pub mod Manager
pub mod Order
pub mod Steps
pub mod Expired
mod Tests
