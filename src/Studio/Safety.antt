-- ===== src/Studio/Safety.antt =====
-- frontend/realtime/src/ttsClone/App.tsx: what the studio shows is what the recorder, the store and the
-- playback do, over any session.
use agent_speak.Base.{◌+◌, true, false, [], some, is_some, ◌≡◌}
use agent_speak.Audio.Recorder.{Recorder, is_recording}
use agent_speak.Studio.{Studio, Media}
use agent_speak.Studio.Reset.{Reset}

-- What the page says of sound is true.
pub record IsTrue (m : Media) : Type 0 where
  pub no_microphone :
      m.is_recording ≡ false
      → m.starting.asked + m.starting.loading ≡ 0
      → (m.recorder.streams ≡ []) × (m.recorder.contexts ≡ [])
  pub no_sound : m.is_playing ≡ false → m.playback.sounds ≡ false
  pub reference : m.has_reference ≡ is_some m.audio_store.reference
  pub generated : m.is_generated ≡ true → m.audio_store.generated_url ≡ some m.playback.source
