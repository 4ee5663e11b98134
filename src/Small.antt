-- ===== src/Small.antt =====
-- The small programs: segments of addresses, options of a server and commands.
pub mod Segments
pub mod Server
pub mod Commands
mod Tests
