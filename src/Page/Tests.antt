-- ===== src/Page/Tests.antt =====
-- The realtime page at a concrete session, switch and reset, and the theorems at them.
use agent_speak.Base.{true, false, none, some, [], ◌∷◌, ◌≡◌, refl, if◌then◌else◌, includes}
use agent_speak.Devices.Gate.{MediaDevice, audioinput, audiooutput, DeviceGateResult, verdict}
use agent_speak.Devices.Client.{opened}
use agent_speak.Models.Speech.{Storage, locale_en, read_speech_language}
use agent_speak.Models.Presentation.{
  ActiveModels, qwen3_asr, breeze_asr, qwen_correction, disabled, derive_model_presentation,
}
use agent_speak.Realtime.Rows.{row_of}
use agent_speak.Resources.Request.{Reply, received, response}
use agent_speak.Resources.Operation.{
  ResourceOperation, ResourcePhase, queued, ready, reset, to_json,
}
use agent_speak.Page.{Page, new_page, gives, Opening}
use agent_speak.Page.Switch.{
  Gateway, change_models, switch_models, await_release, activated_then_ready, ready_then_confirmed,
  await_ready, confirm,
}
use agent_speak.Page.Reset.{Reset, reset_resources}
use agent_speak.Page.Session.{
  IsQuiet, run, clicks_check, clicks_start, selects_models, changes_devices,
}
use agent_speak.Page.Safety.{run-new_page}
use agent_speak.Page.Outcome.{Switched, change_models-Switched, row_of-change_models}
use agent_speak.Page.Resets.{ResetEnded, reset_resources-Ended}

abbrev microphone : MediaDevice
microphone = record { kind = audioinput; device_id = "default"; label = "" }

abbrev speakers : MediaDevice
speakers = record { kind = audiooutput; device_id = "9"; label = "Speakers" }

abbrev approved : DeviceGateResult
approved = verdict (some microphone) (some speakers)

abbrev storage : Storage
storage = record { usable = true; items = λ key. none }

abbrev opening : Opening
opening = record {
  session = λ language asr correction. gives ("s1", language);
  stream = 1;
  context = 2;
  socket = 3;
  fate = opened;
  cause = "";
}

abbrev breeze : ActiveModels
breeze = record {
  asr_model = some breeze_asr;
  correction_model = disabled;
  requested_asr_model = none;
  state = "ready";
  leased_by = none;
  device = "cuda:0";
  error_code = none;
}

-- A gateway that loads the models that are asked for, but for the correction.
abbrev gateway : Gateway
gateway = record {
  catalog = λ n. gives breeze;
  activate = λ asr correction. gives breeze;
  opening = record opening { stream = 4; context = 5; socket = 6 };
  connected = true;
}

abbrev operation : ResourcePhase → ResourceOperation
operation phase = record {
  id = "op_0123456789abcdef";
  action = reset;
  target = "asr";
  phase = phase;
  created_at = "now";
  updated_at = "now";
  error_code = none;
  operator_hint = none;
}

abbrev finished : Reply
finished = response (record { ok = true; status = 200; body = some (to_json (operation ready)) })

abbrev resetting : Reset
resetting = record {
  reply = received (operation queued);
  service = record { reply = λ n. finished; cost = λ n. 0 };
  now = 0;
  catalog = gives breeze;
  capabilities = gives [];
  connected = true;
}

abbrev page : Page
page = new_page storage locale_en

run-new_page_example : IsQuiet (
    run page (
      clicks_check (gives approved)
      ∷ clicks_start opening
      ∷ selects_models gateway breeze_asr qwen_correction
      ∷ changes_devices true
      ∷ []))
unfolding read_speech_language
run-new_page_example = run-new_page storage locale_en (
    clicks_check (gives approved)
    ∷ clicks_start opening
    ∷ selects_models gateway breeze_asr qwen_correction
    ∷ changes_devices true
    ∷ [])

change_models-Switched_example :
    Switched breeze_asr qwen_correction page (change_models gateway breeze_asr qwen_correction page)
unfolding new_page
change_models-Switched_example = change_models-Switched gateway breeze_asr qwen_correction page refl

row_of-change_models_example :
    row_of "u1" (change_models gateway breeze_asr qwen_correction page).state.rows ≡ (
      if includes page.state.completed_utterance_ids "u1"
      then row_of "u1" page.state.rows
      else none)
unfolding new_page
row_of-change_models_example =
    row_of-change_models gateway breeze_asr qwen_correction page "u1" refl

reset_resources-Ended_example : ResetEnded resetting (reset_resources resetting page)
unfolding new_page
reset_resources-Ended_example = reset_resources-Ended resetting page refl

-- The gateway has loaded the recognition model but not the correction: the switch ends without an error.
abbrev after_switch : Page
after_switch = change_models gateway breeze_asr qwen_correction page

unmatched_correction : after_switch.shown_error ≡ none
unfolding change_models switch_models await_release activated_then_ready ready_then_confirmed
    await_ready confirm new_page read_speech_language
unmatched_correction = refl

-- The page then shows the models neither as ready nor as switching.
unmatched_presentation :
    let shown =
      derive_model_presentation breeze after_switch.asr_model after_switch.correction_model
        after_switch.switching in
    (shown.is_ready ≡ false) × (shown.switching ≡ false)
unfolding change_models switch_models await_release activated_then_ready ready_then_confirmed
    await_ready confirm new_page derive_model_presentation
    agent_speak.Models.Presentation.lifecycle_of
unmatched_presentation = (refl, refl)
