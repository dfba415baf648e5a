-- ===== src/Resources/Request.antt =====
-- frontend/realtime/src/resources.ts: requests to the service. A fetcher's answer is a response, or
-- a failure of the transport; a body that is no JSON is `none`.
use agent_speak.Base.{ℕ, String, Bool, Option, none, some, leb, if◌then◌else◌}
use agent_speak.Base.Json.{Value, undefined, string, boolean, object, get}
use agent_speak.Resources.Operation.{
  ResourceOperation, ResourceApiError, Parsed, operation, refused, parse_operation,
}

pub record Response : Type 0 where
  pub ok : Bool
  pub status : ℕ
  pub body : Option Value

pub data Reply : Type 0 where
  unreachable : Reply
  response : Response → Reply

-- What a request throws: the module's own error, or another one (of the transport, of the JSON
-- reader).
pub data Cause : Type 0 where
  api : ResourceApiError → Cause
  foreign : Cause

pub data Requested : Type 0 where
  received : ResourceOperation → Requested
  thrown : Cause → Requested

-- `value?.key`, where a value with no such property gives undefined.
abbrev pub prop : String → Value → Value
prop k (object fs) = get k fs
prop k _ = undefined

abbrev pub text_of : Value → Option String
text_of (string s) = some s
text_of _ = none

abbrev pub flag_of : Value → Option Bool
flag_of (boolean b) = some b
flag_of _ = none

abbrev pub transport_error : ℕ → ResourceApiError
transport_error status = record {
  code = "resource_request_failed";
  status = status;
  message = "The resource request failed";
  retryable = leb 500 status;
  operator_hint = none;
}

abbrev described : ℕ → Value → Option String → Option String → Option Bool → ResourceApiError
described status error (some code) (some message) (some retryable) = record {
  code = code;
  status = status;
  message = message;
  retryable = retryable;
  operator_hint = text_of (prop "operator_hint" (prop "details" error));
}
described status error _ _ _ = transport_error status

-- A null or missing body or error object falls through to the transport error, as one that throws.
unfoldable pub parse_error : Response → ResourceApiError
parse_error r = elim r.body [
  | none ↦ transport_error r.status
  | some payload ↦
      let error = prop "error" payload in
      described r.status error (text_of (prop "code" error)) (text_of (prop "message" error))
        (flag_of (prop "retryable" error))
]

abbrev accepted : Parsed → Requested
accepted (operation op) = received op
accepted (refused e) = thrown (api e)

abbrev read_body : Option Value → Requested
read_body none = thrown foreign
read_body (some v) = accepted (parse_operation v)

-- `requestOperation`, after the fetch.
unfoldable pub request_operation : Reply → Requested
unfolding parse_error parse_operation
request_operation unreachable = thrown foreign
request_operation (response r) = if r.ok then read_body r.body else thrown (api (parse_error r))
