-- ===== src/Realtime.antt =====
-- The realtime transcription page: frontend/realtime/src/types.ts and its parts.
pub mod Types
pub mod Reducer
pub mod Rows
pub mod Order
pub mod Invariant
mod Tests
