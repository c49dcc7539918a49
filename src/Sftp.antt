-- ===== src/Sftp.antt =====
-- The two panes of files: apps/desktop/src/renderer/store/createAppStore.ts.
pub mod Pane
pub mod Selection
pub mod History
mod Tests
