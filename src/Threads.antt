-- ===== src/Threads.antt =====
-- The class `threadpool` of timerloop/priority_queue.
pub mod Defs
pub mod Order
pub mod Runs
pub mod Shutdown
mod Tests
