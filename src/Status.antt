-- ===== src/Status.antt =====
-- The class `Status` of statusandslice.
pub mod Defs
pub mod Layout
pub mod Text
pub mod Heap
pub mod Owners
pub mod Assigning
pub mod Life
mod Tests
