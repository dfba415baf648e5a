-- ===== src/Avatar/Manifest.antt =====
-- frontend/realtime/src/avatarLab/manifest.ts: the check of the avatar manifest.
pub mod Fields
pub mod Frames
pub mod Clips
pub mod Parse
pub mod Loops
pub mod Paths
pub mod Preload
mod Tests
