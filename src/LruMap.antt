-- ===== src/LruMap.antt =====
-- LruMap/lurmap.h: the map with expiring entries. The index leads from a key to a node of the
-- list, whose order is that of last use. `time(NULL)` is an argument of the calls that read it, and
-- an iterator is an address, `none` being `end()`. A call that follows an iterator to no node has
-- no result.
pub mod Defs
pub mod Invariant
pub mod Spec
pub mod View
pub mod Reads
pub mod Writes
pub mod Taking
pub mod Program
pub mod Limits
mod Tests
