-- ===== src/Core/Endpoints.antt =====
-- Endpoints and port forwards of apps/desktop/src/main/core-manager.ts: the names of the children, passed
-- on. A method that waits for an answer is two or three functions.
pub mod Sending
pub mod Answers
unfoldable pub use Sending.*
unfoldable pub use Answers.*
