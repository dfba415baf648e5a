-- ===== src/Models.antt =====
-- frontend/realtime/src/models.ts, modelPresentation.ts and speechLanguage.ts.
pub mod Presentation
pub mod Speech
mod Tests
