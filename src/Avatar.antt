-- ===== src/Avatar.antt =====
-- The avatar motion lab: AI_Avatar/frontend and frontend/realtime/src/avatarLab.
pub mod Types
pub mod Events
pub mod Machine
pub mod Scheduler
pub mod Renderer
pub mod Manifest
mod Tests
