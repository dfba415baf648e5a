-- ===== src/Clone/Tests.antt =====
-- The voice cloning client at concrete values, and the theorems at them.
use agent_speak.Base.{true, false, List, [], ◌∷◌, some, none, codes, ◌≡◌, refl, ◌↔◌}
use agent_speak.Base.Json.{object, field, string, end}
use agent_speak.Clone.Api.{
  Response, ok, failed, api, SynthesisRequest, sigh, warm, Part, ensure_success, synthesize_speech,
}
use agent_speak.Clone.Synthesis.{IsWav, synthesize_speech_iff}

abbrev request : SynthesisRequest
request = record {
  text = "Hello.";
  style_cues = sigh ∷ warm ∷ [];
  use_clone = true;
  reference = some 7;
}

abbrev audio : Response
audio = record {
  is_ok = true;
  status = 200;
  body = none;
  content_type = some (codes "audio/wav; charset=binary");
  blob = 9;
}

abbrev service : List Part → Response
service form = audio

synthesized : synthesize_speech service request ≡ ok 9
unfolding synthesize_speech
synthesized = refl

abbrev busy : Response
busy = record audio {
  is_ok = false;
  status = 409;
  body = some (object (field "error" (object (field "code" (string "gpu_busy") end)) end));
}

refused_code :
    ensure_success busy
    ≡ failed (
        api (record {
          code = "gpu_busy";
          message = "Request failed";
          retryable = false;
          operator_hint = none;
        }))
unfolding ensure_success
refused_code = refl

synthesize_speech_iff_example :
    (synthesize_speech service request ≡ ok 9)
    ↔ ((audio.is_ok ≡ true) × IsWav audio.content_type × (audio.blob ≡ 9))
synthesize_speech_iff_example = synthesize_speech_iff service request 9
