-- ===== src/Workspace/Store.antt =====
-- The part of the store of apps/desktop/src/renderer/store/createAppStore.ts that holds sessions,
-- their tabs and the workspaces.
pub mod State
pub mod Drag
pub mod Panes
pub mod Notifications
pub mod Session
pub mod Shared
pub mod Opening
pub mod Counting
pub mod Placement
pub mod Histories
pub mod Titles
mod Tests
