-- ===== src/LruCache.antt =====
-- lru_cache/lrucache.h: the cache of fixed capacity. The map leads from a key to its value and to the
-- node of the list that holds the key; the list is in order of last use, the latest first.
pub mod Defs
pub mod Spec
pub mod Models
pub mod Methods
pub mod Program
mod Tests
