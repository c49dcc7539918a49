-- ===== src/Workspace.antt =====
-- The split workspaces of the renderer's store, apps/desktop/src/renderer/store/createAppStore.ts:
-- the tree of panes, the strip of tabs, and the store's operations on both.
pub mod Layout
pub mod Strip
pub mod Store
