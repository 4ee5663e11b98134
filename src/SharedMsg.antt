-- ===== src/SharedMsg.antt =====
-- The two programs of linux-sharedMsg and what they share.
pub mod Ipc
pub mod Stdin
pub mod Client
pub mod Server
pub mod System
pub mod Memory
pub mod Invariant
pub mod Safety
pub mod Mail
pub mod Liveness
mod Tests
