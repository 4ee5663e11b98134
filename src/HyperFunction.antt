-- ===== src/HyperFunction.antt =====
-- The class `hyper_function`.
pub mod Defs
pub mod Values
mod Tests
