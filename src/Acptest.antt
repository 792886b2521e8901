-- ===== src/Acptest.antt =====
-- The test driver acptest/driver.go.
pub mod Payload
pub mod Turn
pub mod Format
pub mod Heard
pub mod Driver
pub mod Calls
pub mod System
pub mod Numbering
pub mod Rely
pub mod Exchanges
pub mod Queues
pub mod Matching
pub mod Answered
