-- ===== src/ObjectPool.antt =====
-- The class `ObjectPoolAllocator` of objectpool.
pub mod Defs
pub mod Counts
pub mod Manager
pub mod Guard
pub mod History
pub mod Lending
mod Tests
