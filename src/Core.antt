-- ===== src/Core.antt =====
-- The manager of the core process: apps/desktop/src/main/core-manager.ts.
pub mod State
pub mod Sessions
pub mod Requests
pub mod Records
pub mod Endpoints
pub mod Events
pub mod Process
pub mod Environment
pub mod Calls
pub mod Quiet
pub mod Settling
pub mod Accounting
pub mod Sound
pub mod Idle
pub mod Phases
pub mod Closing
pub mod Turns
pub mod Replies
pub mod Stream
mod Tests
