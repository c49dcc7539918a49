-- ===== src/Core/Replies.antt =====
-- How apps/desktop/src/main/core-manager.ts reads the answers of the core into their types. The payload of an answer
-- is an object of JSON.
pub mod Reading
pub mod Types
pub mod Listing
pub mod Inspecting
pub mod Logs
pub mod Printed
pub mod Lines
pub mod Listed
mod Tests
