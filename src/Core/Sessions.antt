-- ===== src/Core/Sessions.antt =====
-- Terminal sessions of apps/desktop/src/main/core-manager.ts: the names of the children, passed on.
pub mod Opening
pub mod Input
pub mod Lifecycle
unfoldable pub use Opening.*
unfoldable pub use Input.*
unfoldable pub use Lifecycle.*
