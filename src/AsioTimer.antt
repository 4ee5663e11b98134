-- ===== src/AsioTimer.antt =====
-- The timer of timer_demo (asio_timer_base.h and asio_timer_base.cpp).
pub mod Asio
pub mod Defs
pub mod Steps
pub mod Invariant
pub mod Setting
pub mod Scheduled
pub mod Killed
pub mod Replaced
mod Tests
