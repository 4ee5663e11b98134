-- ===== src/Curl.antt =====
-- The class `CurlDown` of Curl_Breakpoint.
pub mod Transfer
pub mod Controler
pub mod Attempts
pub mod Resume
pub mod Progress
mod Tests
