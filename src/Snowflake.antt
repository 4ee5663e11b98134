-- ===== src/Snowflake.antt =====
-- The id generator of snowflake_demo/snowflake.h.
pub mod Defs
pub mod Fields
pub mod Calls
pub mod Ordering
pub mod Loops
pub mod Lock
pub mod Exclusion
pub mod Threads
mod Tests
