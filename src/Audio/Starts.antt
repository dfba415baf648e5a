-- ===== src/Audio/Starts.antt =====
-- frontend/realtime/src/ttsClone/audio.ts: `start` and `play` are their parts, one after another.
use agent_speak.Base.{ℕ, true, false, str_eq, ◌≡◌, refl}
use agent_speak.Audio.Recorder.{
  Recorder, is_recording, denied, broken, granted, start, start_failed, begin_start, open_capture,
  abort_start, load_module, cleanup,
}
use agent_speak.Audio.Playback.{
  Playback, PlayFate, suspended, refused, plays, play, begin_play, finish_play,
}

-- A start of a recorder that does not record: the microphone is refused, the module is not there, or all
-- goes well.
start-parts :
    (stream context : ℕ) (r : Recorder)
    → is_recording r.state ≡ false
    → let fresh = (begin_start r).0 in
      let opened = open_capture stream context fresh in
      (start stream context denied r ≡ (abort_start fresh, start_failed))
      × (start stream context broken r ≡ load_module false opened)
      × (start stream context granted r ≡ load_module true opened)
unfolding start begin_start abort_start load_module cleanup
start-parts stream context r h = rw h (refl, refl, refl)

play-parts :
    (handle : ℕ) (fate : PlayFate) (p : Playback)
    → str_eq p.source "" ≡ false
    → play handle fate p ≡ finish_play handle fate (begin_play p).0
unfolding play begin_play finish_play
play-parts handle suspended p h = rw h refl
play-parts handle refused p h = rw h refl
play-parts handle plays p h = rw h refl
