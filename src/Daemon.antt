-- ===== src/Daemon.antt =====
-- The class `Daemon`.
pub mod PidFile
pub mod Descriptors
pub mod Running
mod Tests
