-- ===== src/Slice.antt =====
-- The class `Slice` of statusandslice/slice.h.
pub mod Defs
pub mod Order
mod Tests
