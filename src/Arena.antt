-- ===== src/Arena.antt =====
-- The class `Arena` of statusandslice.
pub mod Defs
pub mod Regions
pub mod Safety
mod Tests
