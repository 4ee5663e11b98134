-- ===== src/TimeInterval.antt =====
-- The class `CTimeInterval` of workerprocess.
pub mod Defs
pub mod Backoff
pub mod Watchdog
mod Tests
