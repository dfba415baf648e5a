-- ===== src/Clone/Api.antt =====
-- frontend/realtime/src/ttsClone/api.ts. A field of a body has the type that the code gives it, or is
-- missing or null; blobs are numbers.
use agent_speak.Base.{
  ℕ, String, Bool, true, false, List, [], ◌∷◌, ◌++◌, map, Option, none, some, ◌==◌, or_else,
  if◌then◌else◌, codes, same_codes,
}
use agent_speak.Base.Json.{Value, null}
use agent_speak.Resources.Request.{prop, text_of, flag_of}

pub record CloneApiError : Type 0 where
  pub code : String
  pub message : String
  pub retryable : Bool
  pub operator_hint : Option String

-- The status, the body as JSON (none if it is no JSON), the content type, and the body as a blob.
pub record Response : Type 0 where
  pub is_ok : Bool
  pub status : ℕ
  pub body : Option Value
  pub content_type : Option (List ℕ)
  pub blob : ℕ

pub data Failure : Type 0 where
  api : CloneApiError → Failure
  -- `Request failed (<status>)`
  request_failed_with : ℕ → Failure
  -- A body that is no JSON, or null, where one is needed.
  no_body : Failure

pub data Result {ℓ} (A : Type ℓ) : Type ℓ where
  ok : A → Result A
  failed : Failure → Result A

infixl 5 ◌>>=◌
abbrev pub ◌>>=◌ {ℓ κ} :
    {Reply : Type ℓ} {Answer : Type κ} → Result Reply → (Reply → Result Answer) → Result Answer
failed reason >>= next = failed reason
ok reply >>= next = next reply

abbrev pub described : Value → CloneApiError
described error = record {
  code = or_else (text_of (prop "code" error)) "request_failed";
  message = or_else (text_of (prop "message" error)) "Request failed";
  retryable = or_else (flag_of (prop "retryable" error)) false;
  operator_hint = text_of (prop "operator_hint" (prop "details" error));
}

-- The error of a body; reading a field of null or of no body throws.
abbrev pub refusal : ℕ → Option Value → Failure
refusal status none = request_failed_with status
refusal status (some null) = request_failed_with status
refusal status (some payload) = api (described (prop "error" payload))

unfoldable pub ensure_success : Response → Result Response
ensure_success r = if r.is_ok then ok r else failed (refusal r.status r.body)

pub record CloneStatus : Type 0 where
  pub gpu_mode : Value
  pub accelerator : Value
  pub resource_policy : Value
  pub state : Value
  pub model : Value
  pub device : Value
  pub is_ready : Value
  -- undefined where the body has null
  pub error_code : Option String
  pub operator_hint : Option String

abbrev pub read_status : Option Value → Result CloneStatus
read_status none = failed no_body
read_status (some null) = failed no_body
read_status (some value) = ok (record {
  gpu_mode = prop "gpu_mode" value;
  accelerator = prop "accelerator" value;
  resource_policy = prop "resource_policy" value;
  state = prop "state" value;
  model = prop "model" value;
  device = prop "device" value;
  is_ready = prop "ready" value;
  error_code = text_of (prop "error_code" value);
  operator_hint = text_of (prop "operator_hint" value);
})

unfoldable pub get_clone_status : Response → Result CloneStatus
unfolding ensure_success
get_clone_status reply = do response ← ensure_success reply; read_status response.body

pub record ReferenceAssessment : Type 0 where
  pub duration_seconds : Value
  pub rms : Value
  pub peak : Value
  pub voiced_ratio : Value
  pub quality : Value

abbrev pub read_assessment : Option Value → Result ReferenceAssessment
read_assessment none = failed no_body
read_assessment (some null) = failed no_body
read_assessment (some value) = ok (record {
  duration_seconds = prop "duration_seconds" value;
  rms = prop "rms" value;
  peak = prop "peak" value;
  voiced_ratio = prop "voiced_ratio" value;
  quality = prop "quality" value;
})

unfoldable pub validate_reference : Response → Result ReferenceAssessment
unfolding ensure_success
validate_reference reply = do response ← ensure_success reply; read_assessment response.body

pub data StyleCue : Type 0 where
  light_laugh snicker sigh cough warm cheerful soft faster : StyleCue

pub record SynthesisRequest : Type 0 where
  pub text : String
  pub style_cues : List StyleCue
  pub use_clone : Bool
  pub reference : Option ℕ

-- The parts of the form, in order.
pub data Part : Type 0 where
  text_part : String → Part
  cue_part : StyleCue → Part
  use_clone_part : Bool → Part
  reference_part : ℕ → Part

abbrev pub reference_parts : Bool → Option ℕ → List Part
reference_parts true (some blob) = reference_part blob ∷ []
reference_parts _ _ = []

unfoldable pub form_of : SynthesisRequest → List Part
form_of request =
    text_part request.text ∷ map cue_part request.style_cues
    ++ use_clone_part request.use_clone ∷ reference_parts request.use_clone request.reference

-- `contentType.split(';', 1)[0]`
abbrev pub before_semicolon : List ℕ → List ℕ
before_semicolon [] = []
before_semicolon (c ∷ s) = if c == 59 then [] else c ∷ before_semicolon s

abbrev pub is_wav : Option (List ℕ) → Bool
is_wav none = false
is_wav (some type) = same_codes (before_semicolon type) (codes "audio/wav")

abbrev pub unsupported_audio : CloneApiError
unsupported_audio = record {
  code = "invalid_tts_audio";
  message = "Speech service returned an unsupported audio type";
  retryable = false;
  operator_hint = none;
}

-- `service` answers a form.
unfoldable pub synthesize_speech : (List Part → Response) → SynthesisRequest → Result ℕ
unfolding ensure_success form_of
synthesize_speech service request = do
  response ← ensure_success (service (form_of request))
  if is_wav response.content_type then ok response.blob else failed (api unsupported_audio)
