-- ===== src/Codex/Tests.antt =====
-- The recorder page at concrete values, and the theorems at them.
use agent_speak.Base.{List, [], ◌∷◌, some, true, All, codes, ◌≡◌, refl}
use agent_speak.Devices.Gate.{MediaDevice, audioinput, audiooutput, DeviceKind, select}
use agent_speak.Codex.Core.{
  format_timer, controls_for_state, has_required_devices, find_default_audio_devices,
}
use agent_speak.Codex.Page.{
  active_recorder, Page, World, new_page, new_world, listed, stop_recording, not_allowed, refused,
}
use agent_speak.Codex.Process.{
  validate_audio_size, recognise, read_reply, require_text, correct_transcript, copy_corrected_text,
  answered, asr_request, correct_request, copies, process_recording, Services,
}
use agent_speak.Codex.Requests.{IsAllowed, process_recording-IsAllowed}
use agent_speak.Codex.Session.{
  Event, clicks_check, answers_check, clicks_start, grants_stream, answers_services, clicks_stop,
  changes_devices, records_data, fires_stop, run, apply,
}
use agent_speak.Codex.Overlap.{overlap, overlap_unstoppable}

abbrev device : DeviceKind → MediaDevice
device kind = record { kind = kind; device_id = "default"; label = "Default" }

abbrev both : List MediaDevice
both = device audioinput ∷ device audiooutput ∷ []

abbrev services : Services
services = record {
  decode = λ size. some 16000;
  asr = λ size. answered (some (codes " hello "));
  correct = λ text. answered (some (codes "Hello."));
  clipboard = λ text. true;
}

abbrev session : List Event
session =
    clicks_check
    ∷ answers_check (refused not_allowed)
    ∷ clicks_check
    ∷ answers_check (listed both)
    ∷ clicks_start
    ∷ grants_stream 7 3 1000
    ∷ records_data 500
    ∷ clicks_stop 4000
    ∷ fires_stop
    ∷ answers_services services
    ∷ clicks_start
    ∷ changes_devices
    ∷ grants_stream 8 4 9000
    ∷ changes_devices
    ∷ fires_stop
    ∷ []

timer_12 : format_timer 12 ≡ codes "00:12 / 00:30"
unfolding format_timer
timer_12 = refl

abbrev recorded : Page
recorded = record new_page { chunks = 500 ∷ [] }

three_requests :
    (process_recording services recorded).1
    ≡ asr_request 32044 ∷ correct_request (codes "hello") ∷ copies (codes "Hello.") ∷ []
unfolding process_recording new_page validate_audio_size recognise read_reply require_text
    correct_transcript copy_corrected_text
three_requests = refl

process_recording-IsAllowed_example : All IsAllowed (process_recording services recorded).1
process_recording-IsAllowed_example = process_recording-IsAllowed services recorded

-- The recording is over and its processing has begun.
abbrev processed : World
processed = run new_world (
    clicks_check
    ∷ answers_check (listed both)
    ∷ clicks_start
    ∷ grants_stream 7 3 1000
    ∷ clicks_stop 4000
    ∷ fires_stop
    ∷ [])

overlap_unstoppable_example :
    let after = overlap both 8 4 9000 processed in
    (after.streams ≡ 8 ∷ [])
    × (after.active ≡ 4 ∷ [])
    × (after.page.controls.stop_disabled ≡ true)
    × (stop_recording 40000 after ≡ after)
unfolding apply new_page controls_for_state has_required_devices find_default_audio_devices select
    active_recorder
overlap_unstoppable_example = overlap_unstoppable both 8 4 9000 40000 processed refl refl refl
