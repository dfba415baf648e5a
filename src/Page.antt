-- ===== src/Page.antt =====
-- frontend/realtime/src/App.tsx: the state of the realtime page, and its handlers but for the switch of
-- models and the reset of resources. Each handler runs to its end before the next. What the gateway
-- and the browser answer is an argument.
pub mod Switch
pub mod Reset
pub mod Flows
pub mod Session
pub mod Quiet
pub mod Safety
pub mod Outcome
pub mod Resets
mod Tests
use agent_speak.Base.{
  ℕ, String, Bool, true, false, not, ◌&&◌, ◌||◌, List, [], ◌∷◌, ◌++◌, Option, none, some,
  if◌then◌else◌, or_else, str_eq,
}
use agent_speak.Realtime.Types.{
  RealtimeEvent, RealtimeAction, EventType, pipeline_error, server_event, session_reset,
}
use agent_speak.Realtime.Reducer.{RealtimeState, initial_state, realtime_reducer}
use agent_speak.Devices.Gate.{DeviceGateResult, unchecked}
use agent_speak.Devices.Client.{
  World, new_world, StartFate, Started, active, rejected, broken, StartError, not_approved,
  already_active, start, stop,
}
use agent_speak.Devices.Client as Client
use agent_speak.Models.Presentation.{
  AsrModelId, qwen3_asr, CorrectionModelId, qwen_correction, ActiveModels,
}
use agent_speak.Models.Speech.{
  SpeechLanguage, Locale, Storage, read_speech_language, write_speech_language,
  default_speech_language,
}
use agent_speak.Resources.Operation.{ResourcePhase}

-- A message of the catalog, by its key, or the text of an error.
pub data MessageKey : Type 0 where
  device_check create_session start_failed model_switch : MessageKey
  resources_failed resources_reconnecting : MessageKey

pub data Shown : Type 0 where
  says : String → Shown
  translated : MessageKey → Shown

pub data Answer {ℓ} (A : Type ℓ) : Type ℓ where
  gives : A → Answer A
  throws : Shown → Answer A

pub record Inference : Type 0 where
  pub vad : String
  pub asr : String
  pub asr_device : String
  pub correction : String
  pub correction_device : String

pub record Page : Type 0 where
  pub state : RealtimeState
  pub gate : DeviceGateResult
  pub envelope : List ℕ
  pub is_active : Bool
  pub busy : Bool
  pub shown_error : Option Shown
  pub session_id : String
  pub pending_language : SpeechLanguage
  pub language_overridden : Bool
  pub locked_language : Option SpeechLanguage
  pub catalog : Option ActiveModels
  pub asr_model : AsrModelId
  pub correction_model : CorrectionModelId
  pub switching : Bool
  pub resource_busy : Bool
  pub resource_phase : Option ResourcePhase
  pub resource_error : Option Shown
  pub resource_hint : Option String
  pub inference : Inference
  -- `clientRef.current`, with what it has open in the browser.
  pub client : World

abbrev pub unchecked_gate : DeviceGateResult
unchecked_gate = record { is_ready = false; input = none; output = none; reason = unchecked }

abbrev pub unknown_inference : Inference
unknown_inference = record {
  vad = "unknown";
  asr = "unknown";
  asr_device = "unknown";
  correction = "unknown";
  correction_device = "unknown";
}

unfoldable pub new_page : Storage → Locale → Page
new_page storage locale =
    let (language, overridden) = read_speech_language storage locale in
    record {
      state = initial_state;
      gate = unchecked_gate;
      envelope = [];
      is_active = false;
      busy = false;
      shown_error = none;
      session_id = "";
      pending_language = language;
      language_overridden = overridden;
      locked_language = none;
      catalog = none;
      asr_model = qwen3_asr;
      correction_model = qwen_correction;
      switching = false;
      resource_busy = false;
      resource_phase = none;
      resource_error = none;
      resource_hint = none;
      inference = unknown_inference;
      client = new_world;
    }

abbrev pub dispatch : RealtimeAction → Page → Page
dispatch action p = record p { state = realtime_reducer p.state action }

-- A provider of `/api/v1/capabilities`: its stage, name and device.
pub record Provider : Type 0 where
  pub stage : String
  pub name : String
  pub device : String

unfoldable pub provider : String → List Provider → Option Provider
provider stage [] = none
provider stage (item ∷ items) = if str_eq item.stage stage then some item else provider stage items

abbrev pub name_of : Option Provider → String
name_of none = "unknown"
name_of (some item) = item.name

abbrev pub device_of : Option Provider → String
device_of none = "unknown"
device_of (some item) = item.device

unfoldable pub refresh_capabilities : List Provider → Page → Page
unfolding provider
refresh_capabilities providers p = record p {
  inference = record {
    vad = name_of (provider "vad" providers);
    asr = name_of (provider "asr" providers);
    asr_device = device_of (provider "asr" providers);
    correction = name_of (provider "correction" providers);
    correction_device = device_of (provider "correction" providers);
  };
}

-- The selection that a catalog asks for.
unfoldable pub select_from : ActiveModels → Page → Page
select_from c p = record p {
  catalog = some c;
  asr_model = or_else c.requested_asr_model (or_else c.asr_model qwen3_asr);
  correction_model = c.correction_model;
}

-- What `onEvent` is given: an event of the server with the `message` of its data, one that the client
-- makes, or an envelope.
pub data PageEvent : Type 0 where
  from_server : RealtimeEvent → Option String → PageEvent
  audio_envelope : Option (List ℕ) → PageEvent
  device_invalidated : PageEvent
  invalid_event : Option String → PageEvent
  other_event : PageEvent

abbrev pub is_pipeline_error : EventType → Bool
is_pipeline_error pipeline_error = true
is_pipeline_error _ = false

abbrev pub show_pipeline_error : Option String → Page → Page
show_pipeline_error message p = record p {
  shown_error = some (says (or_else message "Realtime pipeline error"));
}

unfoldable pub on_event : PageEvent → Page → Page
on_event (from_server e message) p =
    let q = dispatch (server_event e) p in
    if is_pipeline_error e.event_type then show_pipeline_error message q else q
on_event (audio_envelope samples) p = record p { envelope = or_else samples [] }
on_event device_invalidated p = record p { gate = unchecked_gate; is_active = false }
on_event (invalid_event message) p = show_pipeline_error message p
on_event other_event p = p

unfoldable pub change_speech_language : SpeechLanguage → Page → Storage → Page × Storage
change_speech_language value p storage = (
  record p { pending_language = value; language_overridden = true },
  write_speech_language storage value,
)

-- The effect that follows the locale.
unfoldable pub follow_locale : Locale → Page → Page
follow_locale locale p =
    if p.language_overridden
    then p
    else record p { pending_language = default_speech_language locale }

unfoldable pub check_devices : Answer DeviceGateResult → Page → Page
check_devices (gives result) p = record p {
  shown_error = none;
  gate = result;
  client = Client.check_devices (some result) p.client;
  busy = false;
}
check_devices (throws cause) p = record p {
  gate = unchecked_gate;
  shown_error = some cause;
  busy = false;
}

-- What the gateway and the browser answer to a start: the session for the parameters of its request,
-- the stream, the context and the socket, and how the start of the client ends.
pub record Opening : Type 0 where
  pub session : SpeechLanguage → AsrModelId → CorrectionModelId → Answer (String × SpeechLanguage)
  pub stream : ℕ
  pub context : ℕ
  pub socket : ℕ
  pub fate : StartFate
  pub cause : String

abbrev pub start_message : String → StartError → Shown
start_message cause not_approved = says "Device gate is not approved"
start_message cause already_active = says "Realtime client is already active"

abbrev pub after_start : String → World × Started → Page → Page × Bool
after_start cause (w, active) p = (record p { client = w; is_active = true }, true)
after_start cause (w, rejected e) p =
    (record p { client = w; shown_error = some (start_message cause e) }, false)
after_start cause (w, broken) p = (record p { client = w; shown_error = some (says cause) }, false)

abbrev pub start_session : Opening → Page → Answer (String × SpeechLanguage) → Page × Bool
start_session o p (throws cause) = (record p { shown_error = some cause }, false)
start_session o p (gives (id, language)) =
    after_start o.cause (start o.stream o.context o.socket o.fate p.client)
      (record p { session_id = id; locked_language = some language })

unfoldable pub create_and_start :
    Bool → AsrModelId → CorrectionModelId → Opening → Page → Page × Bool
create_and_start reset_transcript asr correction o p =
    start_session o (if reset_transcript then dispatch session_reset p else p)
      (o.session p.pending_language asr correction)

unfoldable pub start_page : Opening → Page → Page
unfolding create_and_start
start_page o p =
    let begun = record p { busy = true; shown_error = none } in
    record (create_and_start true p.asr_model p.correction_model o begun).0 { busy = false }

unfoldable pub stop_page : Bool → Page → Page
stop_page connected p = record p {
  client = stop "user" connected p.client;
  is_active = false;
  busy = false;
}
