-- ===== src/TimeLog.antt =====
-- The class `TimeLog` of timelog/main.cpp.
pub mod Defs
pub mod Laps
mod Tests
