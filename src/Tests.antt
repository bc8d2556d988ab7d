-- ===== src/Tests.antt =====
-- The theorems at concrete inputs.
pub mod Messages
pub mod Chat
pub mod Friends
pub mod Session
pub mod Storage
pub mod Runtime
pub mod Attachments
pub mod Resources
pub mod Credentials
