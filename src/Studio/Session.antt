-- ===== src/Studio/Session.antt =====
-- frontend/realtime/src/ttsClone/App.tsx: the studio over a session. A click counts only on a button that
-- is shown and enabled; the answers come in any order. What a reset is told comes in any order too, which
-- is more than happens.
use agent_speak.Base.{
  ℕ, String, Bool, true, false, not, ◌&&◌, ◌||◌, List, [], ◌∷◌, if◌then◌else◌, is_blank, ◌≡◌,
}
use agent_speak.Clone.Api.{CloneStatus, ReferenceAssessment, StyleCue, Result}
use agent_speak.Devices.Gate.{DeviceGateResult}
use agent_speak.Audio.Recorder.{receive, time_out}
use agent_speak.Audio.Playback.{PlayFate}
use agent_speak.Studio.{
  Studio, StudioState, DeviceState, checking, queued, generating, controls_ready, refresh,
  devices_changed, check_devices, devices_checked, start_recording, stop_recording,
  microphone_granted, microphone_denied, module_loaded, reference_validated, time_passed,
  discard_reference,
}
use agent_speak.Studio.Generate.{
  toggle_cue, generate, speech_synthesized, play_generated, playback_answered, stop_playback,
  playback_ended,
}
use agent_speak.Studio.Reset.{Reset, reset_resources, News, tell, start_reset}

pub data Event : Type 0 where
  answers_status : Result CloneStatus → Event
  clicks_check clicks_record clicks_stop_recording clicks_discard : Event
  clicks_generate clicks_play clicks_stop_playback clicks_reset : Event
  answers_check : DeviceGateResult → Event
  grants_microphone : ℕ → ℕ → Event
  denies_microphone : Event
  loads_module : Bool → Event
  answers_validation : ℕ → String → Result ReferenceAssessment → Event
  types : String → Event
  toggles_cue : StyleCue → Event
  toggles_clone : Bool → Event
  answers_synthesis : ℕ → String → Result ℕ → Event
  answers_play : ℕ → PlayFate → Event
  tells_reset : News → Event
  -- A whole reset in one step.
  resets : Reset → Event
  -- What happens by itself: the devices change, time passes, the recorder gets a frame or comes to its
  -- longest duration, and the audio ends.
  changes_devices ends_audio times_out : Event
  passes_time : ℕ → Event
  receives : List ℕ → Event

abbrev pub is_checking : DeviceState → Bool
is_checking checking = true
is_checking _ = false

abbrev pub is_generating : StudioState → Bool
is_generating queued = true
is_generating generating = true
is_generating _ = false

abbrev pub enabled : Bool → Studio → Studio → Studio
enabled on s after = if on then after else s

unfoldable pub apply : Studio → Event → Studio
unfolding refresh devices_changed check_devices devices_checked start_recording stop_recording
    microphone_granted microphone_denied module_loaded playback_answered start_reset
    reference_validated time_passed discard_reference toggle_cue generate speech_synthesized
    play_generated stop_playback playback_ended reset_resources
apply s (answers_status answer) = refresh answer s
apply s clicks_check =
    enabled (not (is_checking s.microphone || s.resource_busy)) s (check_devices s)
apply s (answers_check gate) = devices_checked gate s
apply s clicks_record = enabled (not s.media.is_recording && controls_ready s) s (start_recording s)
apply s (grants_microphone stream context) = microphone_granted stream context s
apply s denies_microphone = microphone_denied s
apply s (loads_module works) = module_loaded works s
apply s clicks_stop_recording = enabled s.media.is_recording s (stop_recording s).0
apply s (answers_validation blob url answer) = reference_validated blob url answer s
apply s clicks_discard = enabled s.media.has_reference s (discard_reference s)
apply s (types text) = record s { text = text }
apply s (toggles_cue cue) = toggle_cue cue s
apply s (toggles_clone on) = enabled s.media.has_reference s (record s { use_clone = on })
apply s clicks_generate =
    enabled (controls_ready s && not (is_blank s.text) && not (is_generating s.studio_state)) s
      (generate s)
apply s (answers_synthesis token url answer) = speech_synthesized token url answer s
apply s clicks_play = enabled (not s.media.is_playing && s.media.is_generated) s (play_generated s)
apply s (answers_play handle fate) = playback_answered handle fate s
apply s clicks_stop_playback = enabled s.media.is_playing s (stop_playback s)
apply s clicks_reset = start_reset s
apply s (tells_reset news) = tell news s
apply s (resets env) = reset_resources env s
apply s changes_devices = devices_changed s
apply s ends_audio = playback_ended s
apply s times_out = record s { media = record s.media { recorder = time_out s.media.recorder } }
apply s (passes_time elapsed) = (time_passed elapsed s).0
apply s (receives frame) = record s {
  media = record s.media { recorder = receive frame s.media.recorder };
}

-- The button for a recording is not clicked while an earlier start waits. The page does not prevent it.
abbrev pub IsTimely : Studio → Event → Type 0
IsTimely s clicks_record = (s.media.starting.asked ≡ 0) × (s.media.starting.loading ≡ 0)
IsTimely s _ = Unit

abbrev pub AreTimely : Studio → List Event → Type 0
AreTimely s [] = Unit
AreTimely s (e ∷ es) = IsTimely s e × AreTimely (apply s e) es

abbrev pub run : Studio → List Event → Studio
run s [] = s
run s (e ∷ es) = run (apply s e) es
