-- ===== src/Codex/Session.antt =====
-- web/codex.js: the page over a session. A handler runs up to its next await, and what the browser and the
-- services answer are events of their own; a click counts only on a button that is enabled.
use agent_speak.Base.{
  ℕ, suc, ◌-◌, ◌==◌, Bool, true, false, List, [], ◌∷◌, Option, none, some, if◌then◌else◌, ◌≡◌, ◌⊎◌,
}
use agent_speak.Codex.Core.{is_recording, controls_for_state, has_required_devices}
use agent_speak.Codex.Page.{
  Failure, World, Permission, check_devices, devices_checked, start_recording, recording_granted,
  data_available, stop_recording, invalidate_devices, recording_refused,
}
use agent_speak.Codex.Process.{stop_fired, services_answer, Services}

pub data Event : Type 0 where
  clicks_check clicks_start : Event
  answers_check : Permission → Event
  -- The stream, the recorder and the time; or what failed.
  grants_stream : ℕ → ℕ → ℕ → Event
  refuses_stream : Option ℕ → Failure → Event
  clicks_stop times_out : ℕ → Event
  changes_devices : Event
  records_data : ℕ → Event
  fires_stop : Event
  answers_services : Services → Event

abbrev pub enabled : Bool → World → World → World
enabled disabled w after = if disabled then w else after

abbrev pub asks : World × Bool → World
asks (v, true) = record v { asked = suc v.asked }
asks (v, false) = v

abbrev pub answered : Permission → World → World
answered permission w =
    if w.checks == 0 then w else devices_checked permission (record w { checks = w.checks - 1 })

abbrev pub granted : ℕ → ℕ → ℕ → World → World
granted stream recorder now w =
    if w.asked == 0
    then w
    else recording_granted stream recorder now (record w { asked = w.asked - 1 })

abbrev pub not_granted : Option ℕ → Failure → World → World
not_granted stream failure w =
    if w.asked == 0 then w else recording_refused stream failure (record w { asked = w.asked - 1 })

-- The next stop event, if one is to come.
abbrev pub fire : List ℕ → World → World
fire [] w = w
fire (r ∷ rest) w = stop_fired r w

unfoldable pub apply : World → Event → World
unfolding check_devices devices_checked start_recording recording_granted recording_refused
    data_available stop_recording invalidate_devices stop_fired services_answer
apply w clicks_check =
    enabled w.page.controls.check_disabled w (check_devices (record w { checks = suc w.checks }))
apply w (answers_check permission) = answered permission w
apply w clicks_start = enabled w.page.controls.start_disabled w (asks (start_recording w))
apply w (grants_stream stream recorder now) = granted stream recorder now w
apply w (refuses_stream stream failure) = not_granted stream failure w
apply w (clicks_stop now) = enabled w.page.controls.stop_disabled w (stop_recording now w)
apply w (times_out now) = if w.page.auto_stop then stop_recording now w else w
apply w changes_devices = invalidate_devices w
apply w (records_data size) = data_available size w
apply w fires_stop = fire w.stopping w
apply w (answers_services env) = services_answer env w

abbrev pub run : World → List Event → World
run w [] = w
run w (e ∷ es) = run (apply w e) es

-- The devices are not checked while a start waits for the microphone, and the start button is not clicked
-- while a check, a start or a processing waits, or a stop event is to come. The page does not prevent it.
abbrev pub IsTimely : World → Event → Type 0
IsTimely w clicks_check = w.asked ≡ 0
IsTimely w clicks_start = (w.stopping ≡ []) × (w.checks ≡ 0) × (w.asked ≡ 0) × (w.processing ≡ 0)
IsTimely w _ = Unit

abbrev pub AreTimely : World → List Event → Type 0
AreTimely w [] = Unit
AreTimely w (e ∷ es) = IsTimely w e × AreTimely (apply w e) es

pub record Records (w : World) : Type 0 where
  pub stream : ℕ
  pub recorder : ℕ
  pub holds_stream : w.page.stream ≡ some stream
  pub holds_recorder : w.page.recorder ≡ some recorder
  pub open_stream : w.streams ≡ stream ∷ []
  pub active_recorder : w.active ≡ recorder ∷ []
  pub none_stopping : w.stopping ≡ []
  pub kept : w.page.discard_recording ≡ false
  pub stops_itself : w.page.auto_stop ≡ true
  pub none_waits : (w.checks ≡ 0) × (w.asked ≡ 0) × (w.processing ≡ 0)

-- A recorder that was stopped: its stop event is to come, or its recording is processed.
abbrev pub IsLeft : ℕ → World → Type 0
IsLeft r w =
    (w.page.recorder ≡ some r)
    × (((w.stopping ≡ r ∷ []) × (w.processing ≡ 0)) ⊎ ((w.stopping ≡ []) × (w.processing ≡ 1)))

pub record Rests (w : World) : Type 0 where
  pub no_stream : w.page.stream ≡ none
  pub none_open : w.streams ≡ []
  pub none_active : w.active ≡ []
  pub no_auto_stop : w.page.auto_stop ≡ false
  pub no_interval : w.page.timer_interval ≡ false
  pub pending :
      ((w.stopping ≡ []) × (w.page.recorder ≡ none) × (w.processing ≡ 0)) ⊎ ((r : ℕ) × IsLeft r w)
  pub one_start : (w.asked ≡ 0) ⊎ ((w.asked ≡ 1) × (w.checks ≡ 0) × (w.page.recorder ≡ none))

pub record IsSound (w : World) : Type 0 where
  pub rendered :
      w.page.controls ≡ controls_for_state w.page.phase (has_required_devices w.page.devices)
  pub mode :
      ((is_recording w.page.phase ≡ true) × Records w)
      ⊎ ((is_recording w.page.phase ≡ false) × Rests w)
