-- ===== src/SharedPtr.antt =====
-- The guarded pointer of safe_operation_obj.
pub mod Defs
pub mod Counting
pub mod Clients
mod Tests
