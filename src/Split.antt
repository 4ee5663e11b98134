-- ===== src/Split.antt =====
-- The splitting of strings of splite2vector.
pub mod Defs
pub mod Words
mod Tests
