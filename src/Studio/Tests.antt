-- ===== src/Studio/Tests.antt =====
-- The voice studio at a concrete session, and the theorems at it.
use agent_speak.Base.{true, false, none, some, List, [], ◌∷◌, ◌≡◌, refl}
use agent_speak.Base.Json.{undefined, boolean, string}
use agent_speak.Devices.Gate.{MediaDevice, audioinput, audiooutput, verdict}
use agent_speak.Clone.Api.{CloneStatus, ok, failed, request_failed_with, ReferenceAssessment}
use agent_speak.Resources.Request.{Reply, received, response}
use agent_speak.Resources.Operation.{
  ResourceOperation, ResourcePhase, queued, ready, reset, to_json,
}
use agent_speak.Resources.Poll.{returned, phase_seen, wait_for_resource_operation}
use agent_speak.Audio.Playback.{plays}
use agent_speak.Studio.{
  Studio, DeviceState, new_studio, error, idle, resource_failed, generation_error,
}
use agent_speak.Studio.Generate.{answered, request_speech, speech_synthesized}
use agent_speak.Studio.Reset.{Reset, reset_resources}
use agent_speak.Studio.Session.{
  Event, answers_status, clicks_check, clicks_stop_recording, clicks_generate, answers_check,
  clicks_record, grants_microphone, loads_module, changes_devices, answers_validation, types,
  answers_synthesis, clicks_play, answers_play, receives, run,
}
use agent_speak.Studio.Races.{two_clicks, Leak, two_clicks-Leak}
use agent_speak.Studio.Stale.{late_speech}
use agent_speak.Studio.Resets.{reset_resources-hint}

abbrev service_up : CloneStatus
service_up = record {
  gpu_mode = string "tts";
  accelerator = string "nvidia";
  resource_policy = undefined;
  state = string "ready";
  model = string "voxcpm2";
  device = string "cuda:0";
  is_ready = boolean true;
  error_code = none;
  operator_hint = none;
}

abbrev microphone : MediaDevice
microphone = record { kind = audioinput; device_id = "default"; label = "" }

abbrev speakers : MediaDevice
speakers = record { kind = audiooutput; device_id = "9"; label = "Speakers" }

abbrev good : ReferenceAssessment
good = record {
  duration_seconds = undefined;
  rms = undefined;
  peak = undefined;
  voiced_ratio = undefined;
  quality = string "good";
}

abbrev to_generation : List Event
to_generation =
    answers_status (ok service_up)
    ∷ clicks_check
    ∷ answers_check (verdict (some microphone) (some speakers))
    ∷ clicks_record
    ∷ types "Hi"
    ∷ grants_microphone 1 2
    ∷ answers_status (ok service_up)
    ∷ loads_module true
    ∷ receives (1 ∷ 2 ∷ [])
    ∷ clicks_stop_recording
    ∷ answers_validation 3 "blob:3" (ok good)
    ∷ types " Hello "
    ∷ clicks_generate
    ∷ []

-- A change of the devices while a start waits for the module, which then finds no stream.
abbrev interrupted : List Event
interrupted =
    answers_status (ok service_up)
    ∷ answers_check (verdict (some microphone) (some speakers))
    ∷ clicks_record
    ∷ grants_microphone 1 2
    ∷ changes_devices
    ∷ loads_module true
    ∷ []

abbrev ready_page : Studio
ready_page = record new_studio {
  status = some service_up;
  microphone = DeviceState.ready;
  speaker = DeviceState.ready;
}

two_clicks-Leak_example : Leak 1 3 (run ready_page (two_clicks 1 2 3 4))
two_clicks-Leak_example = two_clicks-Leak ready_page 1 2 3 4 refl refl refl refl

abbrev operation : ResourcePhase → ResourceOperation
operation phase = record {
  id = "op_0123456789abcdef";
  action = reset;
  target = "tts";
  phase = phase;
  created_at = "now";
  updated_at = "now";
  error_code = none;
  operator_hint = some "./run.sh --logs tts-worker";
}

abbrev reply : ResourcePhase → Reply
reply phase = response (record { ok = true; status = 200; body = some (to_json (operation phase)) })

abbrev resetting : ResourcePhase → Reset
resetting phase = record {
  reply = received (operation queued);
  service = record { reply = λ n. reply phase; cost = λ n. 0 };
  now = 0;
  status = λ n. ok service_up;
}

late_speech_example :
    let s = run new_studio to_generation in
    let after = reset_resources (resetting ready) s in
    let again = request_speech s in
    (speech_synthesized 1 "blob:4" (ok 4) after ≡ answered 1 after)
    × (speech_synthesized 1 "blob:4" (ok 4) again ≡ answered 1 again)
unfolding agent_speak.Studio.Session.apply agent_speak.Audio.Recorder.begin_start
    agent_speak.Audio.Recorder.load_module agent_speak.Audio.Recorder.stop
    agent_speak.Audio.Recorder.receive
late_speech_example = late_speech to_generation (resetting ready) 1 "blob:4" 4 refl refl

abbrev failing : Reset
failing = resetting ResourcePhase.failed

reset_resources-hint_example :
    let after = reset_resources failing new_studio in
    (after.resource_hint ≡ none) × (after.resource_error ≡ some resource_failed)
unfolding wait_for_resource_operation agent_speak.Resources.Poll.round
reset_resources-hint_example =
    reset_resources-hint failing new_studio (operation queued) (operation ResourcePhase.failed)
      (phase_seen ResourcePhase.failed ∷ []) refl refl refl refl

-- A page that records, and waits for a synthesis.
abbrev recording_on : List Event
recording_on = clicks_record ∷ grants_microphone 5 6 ∷ loads_module true ∷ []

-- A synthesis that was begun before a reset, and fails after it, is reported as an error of the page that
-- the reset had put to rest.
late_failure :
    let after = reset_resources (resetting ready) (run new_studio to_generation) in
    let told = speech_synthesized 1 "" (failed (request_failed_with 500)) after in
    (after.studio_state ≡ idle)
    × (told.studio_state ≡ error)
    × (told.shown_error ≡ some generation_error)
unfolding agent_speak.Studio.Session.apply agent_speak.Audio.Recorder.begin_start
    agent_speak.Audio.Recorder.load_module agent_speak.Audio.Recorder.stop
    agent_speak.Audio.Recorder.receive reset_resources speech_synthesized
    wait_for_resource_operation agent_speak.Resources.Poll.round
    agent_speak.Studio.Reset.await_status
late_failure = (refl, refl, refl)

-- The next audio silences the one that plays, but the page still shows it as playing.
abbrev regenerated : List Event
regenerated =
    answers_synthesis 1 "blob:4" (ok 4)
    ∷ clicks_play
    ∷ answers_play 1 plays
    ∷ clicks_generate
    ∷ answers_synthesis 2 "blob:5" (ok 5)
    ∷ []

silent_playback :
    let m = (run (run new_studio to_generation) regenerated).media in
    (m.is_playing ≡ true) × (m.playback.sounds ≡ false)
unfolding agent_speak.Studio.Session.apply agent_speak.Audio.Recorder.begin_start
    agent_speak.Audio.Recorder.load_module agent_speak.Audio.Recorder.stop
    agent_speak.Audio.Recorder.receive agent_speak.Audio.Playback.begin_play
    agent_speak.Audio.Playback.finish_play agent_speak.Audio.Playback.set_source
    agent_speak.Audio.Store.set_generated
silent_playback = (refl, refl)
