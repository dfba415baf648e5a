-- ===== src/Clone.antt =====
-- The client of the voice cloning service: frontend/realtime/src/ttsClone/api.ts and types.ts.
pub mod Api
pub mod Synthesis
mod Tests
