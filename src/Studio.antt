-- ===== src/Studio.antt =====
-- frontend/realtime/src/ttsClone/App.tsx: the state of the voice studio, and its handlers for the status
-- of the service, the devices and the reference voice. The recorder, the store and the playback are
-- those of audio.ts, and the answers of the service are read as in api.ts. Amplitudes, tabs and the
-- locale are left out. A handler runs up to its next request; the answers to the requests of the device
-- check, the recorder, the validation, the synthesis, the playback and the reset come as events of their
-- own. The closing of an audio context, and the microtask of `generate`, are not waited for.
pub mod Generate
pub mod Reset
pub mod Session
pub mod Parts
pub mod Keeping
pub mod Waits
pub mod Safety
pub mod Stale
pub mod Resets
pub mod Endings
pub mod Races
mod Tests
use agent_speak.Base.{
  ℕ, String, Bool, true, false, not, ◌&&◌, ◌||◌, List, [], ◌∷◌, Option, none, some, if◌then◌else◌,
  leb, is_some, str_eq, suc, ◌-◌, ◌==◌,
}
use agent_speak.Base.Json.{
  Value, undefined, null, boolean, number, string, array, object, Number, fraction, minus, nan,
  is_text,
}
use agent_speak.Devices.Gate.{MediaDevice, DeviceGateResult}
use agent_speak.Resources.Operation.{ResourcePhase}
use agent_speak.Clone.Api.{
  CloneStatus, ReferenceAssessment, StyleCue, SynthesisRequest, Result, ok, failed,
}
use agent_speak.Audio.Store.{EphemeralAudioStore, empty_store, set_reference, clear_reference}
use agent_speak.Audio.Recorder.{
  Recorder, new_recorder, Started, started, begin_start, open_capture, abort_start, load_module,
  stop, discard,
}
use agent_speak.Audio.Playback.{Playback, new_playback}
use agent_speak.Audio.Playback as Playback
use agent_speak.Audio.Recorder as Recorder

pub data StudioState : Type 0 where
  unavailable idle recording validating queued generating audio_ready playing complete : StudioState
  error : StudioState

pub data DeviceState : Type 0 where
  unchecked checking ready missing : DeviceState

-- A message of the catalog. That of a quality is looked up by the quality.
pub data Message : Type 0 where
  activity_idle activity_devices activity_recording activity_validating : Message
  activity_reference_ready activity_generating activity_audio_ready activity_playing : Message
  device_error generation_error playback_error : Message
  resource_ready resource_failed resource_reconnecting : Message
  quality_label : Value → Message

-- The starts of the recorder that wait: for the microphone, and for the module of the worklet.
pub record Starting : Type 0 where
  pub asked : ℕ
  pub loading : ℕ

-- What the page says of sound, and what the recorder, the store and the playback hold. Promises that
-- wait are counted: those of the starts, and those of `play`.
pub record Media : Type 0 where
  pub is_recording : Bool
  pub is_playing : Bool
  pub has_reference : Bool
  pub is_generated : Bool
  pub starting : Starting
  pub to_play : ℕ
  pub recorder : Recorder
  pub audio_store : EphemeralAudioStore
  pub playback : Playback

-- `awaited` are the synthesis requests without an answer, each with its token.
pub record Studio : Type 0 where
  pub status : Option CloneStatus
  pub microphone : DeviceState
  pub speaker : DeviceState
  pub input_id : String
  pub studio_state : StudioState
  pub assessment : Option ReferenceAssessment
  pub text : String
  pub style_cues : List StyleCue
  pub use_clone : Bool
  -- In milliseconds.
  pub elapsed : ℕ
  pub shown_error : Option Message
  pub activity : Message
  pub resource_busy : Bool
  pub resource_phase : Option ResourcePhase
  pub resource_error : Option Message
  pub resource_hint : Option String
  pub generation_token : ℕ
  pub awaited : List (ℕ × SynthesisRequest)
  pub media : Media

abbrev pub no_media : Media
no_media = record {
  is_recording = false;
  is_playing = false;
  has_reference = false;
  is_generated = false;
  starting = record { asked = 0; loading = 0 };
  to_play = 0;
  recorder = new_recorder;
  audio_store = empty_store;
  playback = new_playback;
}

abbrev pub new_studio : Studio
new_studio = record {
  status = none;
  microphone = unchecked;
  speaker = unchecked;
  input_id = "";
  studio_state = unavailable;
  assessment = none;
  text = "";
  style_cues = [];
  use_clone = false;
  elapsed = 0;
  shown_error = none;
  activity = activity_idle;
  resource_busy = false;
  resource_phase = none;
  resource_error = none;
  resource_hint = none;
  generation_token = 0;
  awaited = [];
  media = no_media;
}

-- Zero or NaN.
abbrev pub is_zero : Number → Bool
is_zero (fraction n d) = leb n 0
is_zero (minus n d) = leb n 0
is_zero nan = true
is_zero _ = false

-- `Boolean(value)`
abbrev pub is_truthy : Value → Bool
is_truthy undefined = false
is_truthy null = false
is_truthy (boolean b) = b
is_truthy (number x) = not (is_zero x)
is_truthy (string s) = not (str_eq s "")
is_truthy (array xs) = true
is_truthy (object fs) = true

abbrev pub runtime_ready : Option CloneStatus → Bool
runtime_ready none = false
runtime_ready (some status) = is_truthy status.is_ready

abbrev pub is_ready : DeviceState → Bool
is_ready ready = true
is_ready _ = false

abbrev pub controls_ready : Studio → Bool
controls_ready s =
    runtime_ready s.status && (is_ready s.microphone && is_ready s.speaker) && not s.resource_busy

abbrev pub resting_state : Option CloneStatus → StudioState
resting_state status = if runtime_ready status then idle else unavailable

-- The states that a status leaves as they are.
abbrev pub is_at_work : StudioState → Bool
is_at_work recording = true
is_at_work validating = true
is_at_work queued = true
is_at_work generating = true
is_at_work audio_ready = true
is_at_work playing = true
is_at_work _ = false

abbrev pub failed_status : CloneStatus
failed_status = record {
  gpu_mode = string "asr";
  accelerator = string "cpu";
  resource_policy = undefined;
  state = string "failed";
  model = string "voxcpm2";
  device = string "unknown";
  is_ready = boolean false;
  error_code = some "provider_unavailable";
  operator_hint = some "./run.sh --logs tts-worker";
}

unfoldable pub refresh : Result CloneStatus → Studio → Studio
refresh (ok next) s = record s {
  status = some next;
  studio_state = if is_at_work s.studio_state then s.studio_state else resting_state (some next);
}
refresh (failed cause) s = record s { status = some failed_status; studio_state = unavailable }

-- The callback of `watchDevices`.
unfoldable pub devices_changed : Studio → Studio
devices_changed s = record s {
  microphone = unchecked;
  speaker = unchecked;
  input_id = "";
  studio_state = resting_state s.status;
  shown_error = some device_error;
  media = record s.media { is_recording = false; recorder = discard s.media.recorder };
}

unfoldable pub check_devices : Studio → Studio
check_devices s = record s { microphone = checking; speaker = checking; shown_error = none }

abbrev pub device_of : Option MediaDevice → String
device_of none = ""
device_of (some device) = device.device_id

abbrev pub found : Option MediaDevice → DeviceState
found device = if is_some device then ready else missing

unfoldable pub devices_checked : DeviceGateResult → Studio → Studio
devices_checked gate s = record s {
  microphone = found gate.input;
  speaker = found gate.output;
  input_id = device_of gate.input;
  activity = if gate.is_ready then activity_devices else device_error;
  shown_error = if gate.is_ready then s.shown_error else some device_error;
}

abbrev pub recording_started : Recorder × Started → Studio → Studio
recording_started (r, started) s = record s {
  studio_state = recording;
  activity = activity_recording;
  media = record s.media { recorder = r; is_recording = true };
}
-- The error of the recorder goes to nobody.
recording_started (r, _) s = record s { media = record s.media { recorder = r } }

abbrev pub recording_begun : Recorder × Bool → Studio → Studio
recording_begun (r, true) s = record s {
  media = record s.media {
    recorder = r;
    starting = record s.media.starting { asked = suc s.media.starting.asked };
  };
}
recording_begun (r, false) s = record s { media = record s.media { recorder = r } }

-- Up to the request for the microphone.
unfoldable pub start_recording : Studio → Studio
unfolding begin_start
start_recording s =
    let cleared = record s { shown_error = none; elapsed = 0 } in
    if controls_ready s then recording_begun (begin_start s.media.recorder) cleared else s

abbrev pub take_stream : ℕ → ℕ → Media → Media
take_stream stream context m = record m {
  recorder = open_capture stream context m.recorder;
  starting = record { asked = m.starting.asked - 1; loading = suc m.starting.loading };
}

-- The microphone is there: the context is made, and the module of the worklet is asked for.
unfoldable pub microphone_granted : ℕ → ℕ → Studio → Studio
microphone_granted stream context s =
    if s.media.starting.asked == 0
    then s
    else record s { media = take_stream stream context s.media }

abbrev pub refuse_stream : Media → Media
refuse_stream m = record m {
  recorder = abort_start m.recorder;
  starting = record m.starting { asked = m.starting.asked - 1 };
}

unfoldable pub microphone_denied : Studio → Studio
unfolding abort_start
microphone_denied s =
    if s.media.starting.asked == 0 then s else record s { media = refuse_stream s.media }

abbrev pub loaded_one : Studio → Studio
loaded_one s = record s {
  media = record s.media {
    starting = record s.media.starting { loading = s.media.starting.loading - 1 };
  };
}

-- The module of the worklet is there, or not: the rest of the start, and of the handler.
unfoldable pub module_loaded : Bool → Studio → Studio
unfolding load_module
module_loaded works s =
    if s.media.starting.loading == 0
    then s
    else recording_started (load_module works s.media.recorder) (loaded_one s)

-- The `catch` block of `stopRecording`, and the one of `generate`.
abbrev pub generation_failed : Studio → Studio
generation_failed s = record s { shown_error = some generation_error; studio_state = error }

abbrev pub recording_stopped : Recorder × Option (List ℕ) → Studio → Studio × Option (List ℕ)
recording_stopped (r, none) s =
    (generation_failed (record s { media = record s.media { recorder = r } }), none)
recording_stopped (r, some blob) s =
    (record s { media = record s.media { recorder = r } }, some blob)

-- Up to the request for the validation, which is for the recording that comes with the page.
unfoldable pub stop_recording : Studio → Studio × Option (List ℕ)
stop_recording s = recording_stopped (stop s.media.recorder) (record s {
  studio_state = validating;
  activity = activity_validating;
  media = record s.media { is_recording = false };
})

abbrev pub reference_accepted : ℕ → String → ReferenceAssessment → Studio → Studio
reference_accepted blob url result s = record s {
  assessment = some result;
  activity = activity_reference_ready;
  studio_state = idle;
  media = record s.media {
    audio_store = (set_reference blob url s.media.audio_store).0;
    has_reference = true;
  };
}

abbrev pub reference_rejected : ReferenceAssessment → Studio → Studio
reference_rejected result s = record s {
  assessment = some result;
  shown_error = some (quality_label result.quality);
  studio_state = error;
}

-- From the answer of the validation on. The store knows the recording as `blob`, and `url` is the answer
-- to its request for a URL.
unfoldable pub reference_validated : ℕ → String → Result ReferenceAssessment → Studio → Studio
reference_validated blob url (failed cause) s = generation_failed s
reference_validated blob url (ok result) s =
    if is_text result.quality "good"
    then reference_accepted blob url result s
    else reference_rejected result s

-- The time that has passed since the recording started. A recording of 30 seconds is stopped.
unfoldable pub time_passed : ℕ → Studio → Studio × Option (List ℕ)
unfolding stop_recording
time_passed elapsed s =
    let timed = record s { elapsed = elapsed } in
    let due = if leb 30000 elapsed then stop_recording timed else (timed, none) in
    if s.media.is_recording then due else (s, none)

unfoldable pub discard_reference : Studio → Studio
discard_reference s = record s {
  use_clone = false;
  assessment = none;
  studio_state = resting_state s.status;
  media = record s.media {
    audio_store = (clear_reference s.media.audio_store).0;
    has_reference = false;
  };
}
