-- ===== src/Sharing.antt =====
-- Sessions shared with viewers: apps/desktop/src/main/session-share-service.ts.
pub mod Share
pub mod Service
pub mod Methods
pub mod Queue
pub mod Chat
pub mod Relay
pub mod Calls
pub mod Ownership
pub mod Lawful
pub mod Steps
pub mod Kept
pub mod Reached
mod Tests
