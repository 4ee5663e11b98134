-- ===== src/Registry.antt =====
-- The registries of objectRegistry, message_demo and objectpool2/DynamicCreate.cpp.
pub mod Defs
pub mod First
mod Tests
