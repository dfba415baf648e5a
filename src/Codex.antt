-- ===== src/Codex.antt =====
-- The recorder page for Codex: web/codex.js and web/codex-recorder-core.js.
pub mod Core
pub mod Page
pub mod Process
pub mod Requests
pub mod Session
pub mod Handlers
pub mod Stopped
pub mod Sound
pub mod Overlap
mod Tests
