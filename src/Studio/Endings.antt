-- ===== src/Studio/Endings.antt =====
-- frontend/realtime/src/ttsClone/App.tsx: what a reset of the resources leaves behind.
use agent_speak.Base.{suc, true, false, none, ◌≡◌, ◌⊎◌}
use agent_speak.Audio.Recorder.{idle}
use agent_speak.Audio.Recorder as Recorder
use agent_speak.Audio.Playback as Playback
use agent_speak.Studio.{Studio, Media}
use agent_speak.Studio.Reset.{Reset}
use agent_speak.Studio.Resets.{IsUp, IsDown}

-- What a page said of sound before, and what holds after: what it showed is stopped, and the stored audio
-- is as it was.
pub record AreHalted (m n : Media) : Type 0 where
  pub shows_neither : (n.is_recording ≡ false) × (n.is_playing ≡ false)
  pub microphone_closed :
      m.is_recording ≡ true
      → (n.recorder.state ≡ idle)
        × (n.recorder.stream ≡ none)
        × (n.recorder.streams ≡ Recorder.close_all m.recorder.stream m.recorder.streams)
  pub recorder_kept : m.is_recording ≡ false → n.recorder ≡ m.recorder
  pub playback_silent :
      m.is_playing ≡ true → (n.playback.playing ≡ false) × (n.playback.sounds ≡ false)
  pub playback_kept : m.is_playing ≡ false → n.playback ≡ m.playback
  pub stored : n.audio_store ≡ m.audio_store
  pub offered : (n.has_reference ≡ m.has_reference) × (n.is_generated ≡ m.is_generated)

pub record IsEnded (s t : Studio) : Type 0 where
  pub free : t.resource_busy ≡ false
  pub renewed : t.generation_token ≡ suc s.generation_token
  pub awaited : t.awaited ≡ s.awaited
  pub halted : AreHalted s.media t.media
  pub concluded : IsUp t ⊎ IsDown t
