-- ===== src/Scheduler.antt =====
-- src/Scheduler.cc, include/scheduler.h, and the states of src/Fiber.cc: who runs what.
pub mod Queue
pub mod Picking
pub mod Running
pub mod Counts
pub mod Steps
mod Tests
