-- ===== src/Studio/Races.antt =====
-- frontend/realtime/src/ttsClone/App.tsx and audio.ts: two clicks on the button for a recording.
use mathlib.Core.Path.{subst}
use agent_speak.Base.{ℕ, true, false, List, [], ◌∷◌, ◌==◌, ◌≡◌, refl, sym, arith}
use agent_speak.Audio.Recorder.{new_recorder}
use agent_speak.Studio.{
  Studio, no_media, controls_ready, start_recording, microphone_granted, module_loaded,
  devices_changed,
}
use agent_speak.Studio.Session.{
  Event, clicks_record, grants_microphone, loads_module, changes_devices, apply, run,
}

abbrev pub two_clicks : ℕ → ℕ → ℕ → ℕ → List Event
two_clicks first second one two =
    clicks_record
    ∷ clicks_record
    ∷ grants_microphone first one
    ∷ grants_microphone second two
    ∷ loads_module true
    ∷ loads_module true
    ∷ changes_devices
    ∷ []

-- The page shows no recording and no start waits, and the recorder holds nothing, but this stream and this
-- context are open.
pub record Leak (stream context : ℕ) (s : Studio) : Type 0 where
  pub shows_none : s.media.is_recording ≡ false
  pub none_waits : s.media.starting ≡ no_media.starting
  pub open_still :
      s.media.recorder ≡ record new_recorder { streams = stream ∷ []; contexts = context ∷ [] }

same : (n : ℕ) → (n == n) ≡ true
same n = ground arith

leak :
    (s : Studio) (first second one two : ℕ)
    → controls_ready s ≡ true
    → (first == second) ≡ false
    → (one == two) ≡ false
    → Leak first one (run (record s { media = no_media }) (two_clicks first second one two))
unfolding apply start_recording microphone_granted module_loaded devices_changed
    agent_speak.Audio.Recorder.begin_start agent_speak.Audio.Recorder.load_module
    agent_speak.Audio.Recorder.discard agent_speak.Audio.Recorder.cleanup
leak s first second one two c f g =
    rw (c, c)
      (record {
        shows_none = refl;
        none_waits = refl;
        open_still = rw (f, g, same second, same two) refl;
      })

-- On a ready page without sound, the button for a recording is clicked again before the first click has got
-- the microphone, and both get one. Then the devices change, so the recording is discarded and the page
-- shows none and no start waits, but the stream of the first click and its context are still open, and the
-- recorder holds neither.
pub two_clicks-Leak :
    (s : Studio) (first second one two : ℕ)
    → s.media ≡ no_media
    → controls_ready s ≡ true
    → (first == second) ≡ false
    → (one == two) ≡ false
    → Leak first one (run s (two_clicks first second one two))
two_clicks-Leak s first second one two m c f g =
    subst (λ n. Leak first one (run (record s { media = n }) (two_clicks first second one two)))
      (sym m) (leak s first second one two c f g)
