-- ===== src/Codex/Page.antt =====
-- web/codex.js: the page and its handlers. Streams and recorders of the browser are numbers, chunks
-- their sizes, times milliseconds; the texts of the status lines are left out. `checkDevices`,
-- `startRecording` and `processRecording` are cut where they await: other handlers may run there.
use agent_speak.Base.{
  ℕ, ◌-◌, ◌/◌, Bool, true, false, not, ◌||◌, List, [], ◌∷◌, ◌++◌, Option, none, some, ◌==◌,
  if◌then◌else◌, keep, is_some,
}
use agent_speak.Devices.Gate.{MediaDevice}
use agent_speak.Codex.Core.{
  DevicePair, no_devices, find_default_audio_devices, has_required_devices, Phase, unchecked,
  checking, ready, recording, processing, error, Controls, controls_for_state, format_timer,
}

pub data Failure : Type 0 where
  unsupported not_allowed other_failure unconfirmed empty_audio too_large : Failure
  cannot_decode request_failed no_transcript no_correction cannot_copy : Failure
  -- Whether the input and the output are missing.
  missing : Bool → Bool → Failure
  cannot_start : Failure → Failure

pub record Page : Type 0 where
  pub phase : Phase
  pub devices : DevicePair
  pub stream : Option ℕ
  pub recorder : Option ℕ
  pub chunks : List ℕ
  pub auto_stop : Bool
  pub timer_interval : Bool
  pub started_at : ℕ
  pub discard_recording : Bool
  -- What the page shows.
  pub controls : Controls
  pub shown_error : Option Failure
  pub timer : List ℕ
  pub raw_transcript : List ℕ
  pub corrected_text : List ℕ
  pub copy_hidden : Bool

-- The page, the streams whose tracks run, the recorders that record, and those whose `stop` event is
-- still to come.
pub record World : Type 0 where
  pub page : Page
  pub streams : List ℕ
  pub active : List ℕ
  pub stopping : List ℕ
  -- How many checks of the devices, requests for the microphone and processings of a recording wait.
  pub checks : ℕ
  pub asked : ℕ
  pub processing : ℕ

unfoldable pub render_controls : Page → Page
render_controls p = record p {
  controls = controls_for_state p.phase (has_required_devices p.devices);
}

abbrev pub set_phase : Phase → Page → Page
set_phase phase p = render_controls (record p { phase = phase })

abbrev pub clear_error : Page → Page
clear_error p = record p { shown_error = none }

abbrev pub show_error : Failure → Page → Page
show_error failure p = record p { shown_error = some failure }

abbrev pub remove : ℕ → List ℕ → List ℕ
remove k = keep (λ x. not (x == k))

abbrev pub holds : List ℕ → ℕ → Bool
holds [] k = false
holds (x ∷ xs) k = x == k || holds xs k

-- `stopTracks`
abbrev pub stop_tracks : Option ℕ → List ℕ → List ℕ
stop_tracks none streams = streams
stop_tracks (some s) streams = remove s streams

abbrev pub clear_recording_timers : Page → Page
clear_recording_timers p = record p { auto_stop = false; timer_interval = false }

unfoldable pub new_page : Page
unfolding render_controls
new_page = render_controls (record {
  phase = unchecked;
  devices = no_devices;
  stream = none;
  recorder = none;
  chunks = [];
  auto_stop = false;
  timer_interval = false;
  started_at = 0;
  discard_recording = false;
  controls = controls_for_state unchecked false;
  shown_error = none;
  timer = [];
  raw_transcript = [];
  corrected_text = [];
  copy_hidden = true;
})

abbrev pub new_world : World
new_world = record {
  page = new_page;
  streams = [];
  active = [];
  stopping = [];
  checks = 0;
  asked = 0;
  processing = 0;
}

abbrev pub on_page : (Page → Page) → World → World
on_page f w = record w { page = f w.page }

-- `checkDevices` up to its first await.
unfoldable pub check_devices : World → World
unfolding render_controls
check_devices w = on_page (λ p. set_phase checking (clear_error p)) w

-- What the browser answers: no support, a refusal, or the devices. The permission stream is stopped
-- whatever comes of it.
pub data Permission : Type 0 where
  refused : Failure → Permission
  listed : List MediaDevice → Permission

unfoldable pub devices_refused : Failure → Page → Page
unfolding render_controls
devices_refused failure p = show_error failure (set_phase error (record p { devices = no_devices }))

unfoldable pub devices_checked : Permission → World → World
unfolding render_controls devices_refused
devices_checked (refused failure) w = on_page (devices_refused failure) w
devices_checked (listed found) w =
    let pair = find_default_audio_devices found in
    if has_required_devices pair
    then on_page (λ p. set_phase ready (record p { devices = pair })) w
    else on_page (devices_refused (missing (not (is_some pair.input)) (not (is_some pair.output))))
        w

-- `startRecording` up to its await: it goes on if the result is true.
unfoldable pub start_recording : World → World × Bool
unfolding render_controls
start_recording w =
    if has_required_devices w.page.devices
    then (on_page clear_error w, true)
    else (on_page (λ p. set_phase unchecked (show_error unconfirmed p)) w, false)

-- The stream was granted and the recorder is new.
unfoldable pub recording_granted : ℕ → ℕ → ℕ → World → World
unfolding render_controls
recording_granted stream recorder now w =
    let begun = record w.page {
      stream = some stream;
      recorder = some recorder;
      chunks = [];
      discard_recording = false;
      started_at = now;
      timer = format_timer 0;
    } in
    record w {
      page = record (set_phase recording begun) { timer_interval = true; auto_stop = true };
      streams = stream ∷ w.streams;
      active = recorder ∷ w.active;
    }

-- The stream was refused, or it was granted and the recorder could not be made.
unfoldable pub recording_refused : Option ℕ → Failure → World → World
unfolding render_controls
recording_refused none failure w = record w {
  page =
      show_error (cannot_start failure)
        (set_phase error (record w.page { stream = none; recorder = none }));
  streams = stop_tracks w.page.stream w.streams;
}
recording_refused (some granted) failure w = record w {
  page =
      show_error (cannot_start failure)
        (set_phase error (record w.page { stream = none; recorder = none }));
}

-- The recorder's `dataavailable` event; an empty chunk is dropped.
unfoldable pub data_available : ℕ → World → World
data_available size w =
    if size == 0 then w else on_page (λ p. record p { chunks = p.chunks ++ size ∷ [] }) w

-- `recorder.stop()` and the stop of its stream.
abbrev pub stop_recorder : ℕ → World → World
stop_recorder r w = record w {
  page = record w.page { stream = none };
  streams = stop_tracks w.page.stream w.streams;
  active = remove r w.active;
  stopping = r ∷ w.stopping;
}

abbrev pub show_elapsed : ℕ → Page → Page
show_elapsed now p = record p { timer = format_timer ((now - p.started_at) / 1000) }

-- The recorder, unless there is none or it is inactive.
unfoldable pub active_recorder : World → Option ℕ
active_recorder w = elim w.page.recorder [
  | none ↦ none
  | some r ↦ if holds w.active r then some r else none
]

unfoldable pub stop_held : ℕ → Option ℕ → World → World
unfolding render_controls
stop_held now none w = w
stop_held now (some r) w =
    stop_recorder r
      (on_page (λ p. set_phase processing (show_elapsed now (clear_recording_timers p))) w)

-- The click on the stop button, and the timer of 30 seconds.
unfoldable pub stop_recording : ℕ → World → World
unfolding stop_held
stop_recording now w = stop_held now (active_recorder w) w

unfoldable pub discard_held : Option ℕ → World → World
discard_held none w = w
discard_held (some r) w =
    stop_recorder r
      (on_page (λ p. clear_recording_timers (record p { discard_recording = true })) w)

-- The `devicechange` event.
unfoldable pub invalidate_devices : World → World
unfolding render_controls discard_held
invalidate_devices w =
    on_page (set_phase unchecked)
      (discard_held (active_recorder w) (on_page (λ p. record p { devices = no_devices }) w))
