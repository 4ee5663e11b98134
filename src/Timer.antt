-- ===== src/Timer.antt =====
-- The class `Timer` of timerloop/priority_queue.
pub mod Defs
pub mod Queue
pub mod Cancel
pub mod Counting
mod Tests
