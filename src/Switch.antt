-- ===== src/Switch.antt =====
-- The programs of switch.
pub mod Hash
pub mod Cases
mod Tests
