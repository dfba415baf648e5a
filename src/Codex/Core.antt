-- ===== src/Codex/Core.antt =====
-- web/codex-recorder-core.js. Texts are lists of codes.
use agent_speak.Base.{
  ℕ, ◌+◌, ◌/◌, ◌%◌, min, Bool, true, false, not, ◌&&◌, ◌||◌, List, ◌∷◌, ◌++◌, Option, none, is_some,
  codes,
}
use agent_speak.Devices.Gate.{MediaDevice, audioinput, audiooutput, select}

pub record DevicePair : Type 0 where
  pub input : Option MediaDevice
  pub output : Option MediaDevice

abbrev pub no_devices : DevicePair
no_devices = record { input = none; output = none }

-- The default device of a kind, or one with a label: the rule is that of the device gate.
unfoldable pub find_default_audio_devices : List MediaDevice → DevicePair
find_default_audio_devices devices = record {
  input = select audioinput devices;
  output = select audiooutput devices;
}

unfoldable pub has_required_devices : DevicePair → Bool
has_required_devices pair = is_some pair.input && is_some pair.output

pub data Phase : Type 0 where
  unchecked checking ready recording processing error : Phase

abbrev pub is_ready : Phase → Bool
is_ready ready = true
is_ready _ = false

abbrev pub is_recording : Phase → Bool
is_recording recording = true
is_recording _ = false

abbrev pub is_busy : Phase → Bool
is_busy checking = true
is_busy recording = true
is_busy processing = true
is_busy _ = false

pub record Controls : Type 0 where
  pub check_disabled : Bool
  pub start_disabled : Bool
  pub stop_disabled : Bool

unfoldable pub controls_for_state : Phase → Bool → Controls
controls_for_state phase devices_ready = record {
  check_disabled = is_busy phase;
  start_disabled = not (is_ready phase) || not devices_ready;
  stop_disabled = not (is_recording phase);
}

unfoldable pub format_timer : ℕ → List ℕ
format_timer seconds =
    let bounded = min 30 seconds in
    codes "00:" ++ (48 + bounded / 10) ∷ (48 + bounded % 10) ∷ codes " / 00:30"
