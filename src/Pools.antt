-- ===== src/Pools.antt =====
-- The pools of objectpool2.
pub mod Simple
pub mod Ring
mod Tests
