-- ===== src/Codex/Overlap.antt =====
-- web/codex.js: the services answer after a change of devices and a new recording. The page that
-- `processRecording` ends on is then that of the new recording.
use agent_speak.Base.{ℕ, true, List, [], ◌∷◌, ◌≡◌, refl, arith, Option-cases, inl, inr, ap, ◌∙◌}
use agent_speak.Devices.Gate.{MediaDevice}
use agent_speak.Codex.Core.{has_required_devices, find_default_audio_devices, controls_for_state}
use agent_speak.Codex.Page.{
  Page, World, listed, check_devices, devices_checked, start_recording, recording_granted,
  stop_recording, invalidate_devices, discard_held, active_recorder, on_page, render_controls,
  stop_held,
}
use agent_speak.Codex.Process.{process_end}

-- The devices change while a recording is processed; they are checked and a recording is started,
-- and then the processing of the old one ends.
unfoldable pub overlap : List MediaDevice → ℕ → ℕ → ℕ → World → World
unfolding check_devices devices_checked start_recording recording_granted invalidate_devices
    process_end
overlap found stream recorder now w =
    let checked = devices_checked (listed found) (check_devices (invalidate_devices w)) in
    on_page process_end (recording_granted stream recorder now (start_recording checked).0)

invalidate_devices-idle :
    (w : World)
    → w.active ≡ []
    → ((invalidate_devices w).streams ≡ w.streams) × ((invalidate_devices w).active ≡ [])
unfolding invalidate_devices discard_held render_controls active_recorder
invalidate_devices-idle w a = elim (Option-cases w.page.recorder) [
  | inl e ↦ ground arith
  | inr (r, e) ↦ ground arith
]

checked_and_started :
    (found : List MediaDevice) (v : World)
    → has_required_devices (find_default_audio_devices found) ≡ true
    → ((start_recording (devices_checked (listed found) v)).0.streams ≡ v.streams)
      × ((start_recording (devices_checked (listed found) v)).0.active ≡ v.active)
unfolding devices_checked start_recording render_controls
checked_and_started found v enough = rw (enough, enough) (refl, refl)

process_end-no_stop : (p : Page) → (process_end p).controls.stop_disabled ≡ true
unfolding process_end render_controls controls_for_state
process_end-no_stop p = ground arith

-- If no stream is open at the change and the devices that are found suffice, the new recording goes on with its stream open, but the
-- button that stops it is disabled and neither a click on it nor the timer has an effect.
pub overlap_unstoppable :
    (found : List MediaDevice) (stream recorder now later : ℕ) (w : World)
    → has_required_devices (find_default_audio_devices found) ≡ true
    → w.active ≡ []
    → w.streams ≡ []
    → let after = overlap found stream recorder now w in
      (after.streams ≡ stream ∷ [])
      × (after.active ≡ recorder ∷ [])
      × (after.page.controls.stop_disabled ≡ true)
      × (stop_recording later after ≡ after)
unfolding overlap recording_granted process_end check_devices render_controls controls_for_state
    stop_recording stop_held active_recorder
overlap_unstoppable found stream recorder now later w enough a s =
    let idle = invalidate_devices-idle w a in
    let checked = devices_checked (listed found) (check_devices (invalidate_devices w)) in
    let live = recording_granted stream recorder now (start_recording checked).0 in
    let begun = checked_and_started found (check_devices (invalidate_devices w)) enough in
    (
      ap (λ xs. stream ∷ xs) (begun.0 ∙ idle.0 ∙ s),
      ap (λ xs. recorder ∷ xs) (begun.1 ∙ idle.1),
      process_end-no_stop live.page,
      refl,
    )
