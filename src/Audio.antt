-- ===== src/Audio.antt =====
-- frontend/realtime/src/ttsClone/audio.ts: the audio of the voice studio.
pub mod Store
pub mod Urls
pub mod Wav
pub mod Header
pub mod Recorder
pub mod Playback
pub mod Recordings
mod Starts
mod Tests
