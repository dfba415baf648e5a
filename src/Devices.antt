-- ===== src/Devices.antt =====
-- frontend/realtime/src/audio: the device gate and the realtime client.
pub mod Gate
pub mod Client
pub mod Release
pub mod Races
mod Tests
