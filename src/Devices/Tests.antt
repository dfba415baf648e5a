-- ===== src/Devices/Tests.antt =====
-- The gate and the client at concrete devices and calls, and the theorems at them.
use agent_speak.Base.{false, List, [], ◌∷◌, none, some, ◌≡◌, refl}
use agent_speak.Devices.Gate.{MediaDevice, audioinput, audiooutput, DeviceGateResult, verdict}
use agent_speak.Devices.Client.{
  World, new_world, opened, start, start_guard, not_approved, check_devices,
}
use agent_speak.Devices.Release.{IsReleased, starts, checks, run, apply}
use agent_speak.Devices.Races.{
  start_across_change, start_across_change_active, two_starts, two_starts_leak,
}

abbrev usb : MediaDevice
usb = record { kind = audioinput; device_id = "7"; label = "USB" }

abbrev system_input : MediaDevice
system_input = record { kind = audioinput; device_id = "default"; label = "" }

abbrev speakers : MediaDevice
speakers = record { kind = audiooutput; device_id = "9"; label = "Speakers" }

abbrev devices : List MediaDevice
devices = usb ∷ system_input ∷ speakers ∷ []

abbrev approved : DeviceGateResult
approved = verdict (some system_input) (some speakers)

abbrev approved_world : World
approved_world = record new_world { client = record new_world.client { gate = approved } }

-- A start is refused before the devices are checked, and opens one stream after that.
opened_stream :
    (run new_world
      (starts 1 2 3 opened ∷ checks (some approved) ∷ starts 1 2 3 opened ∷ [])).streams
    ≡ 1 ∷ []
unfolding run apply start start_guard check_devices
opened_stream = refl

approved_world-IsReleased : IsReleased approved_world
approved_world-IsReleased = record {
  no_streams = refl;
  no_sockets = refl;
  no_contexts = refl;
  idle_stream = refl;
  idle_socket = refl;
  idle_context = refl;
}

start_across_change_active_example :
    let after = start_across_change 1 2 3 false approved_world in
    (after.streams ≡ 1 ∷ [])
    × (after.sockets ≡ 3 ∷ [])
    × (after.contexts ≡ 2 ∷ [])
    × (start_guard after.client ≡ some not_approved)
start_across_change_active_example =
    start_across_change_active approved_world 1 2 3 false approved_world-IsReleased
      (unfold start_guard in refl)

two_starts_leak_example :
    let after = two_starts 1 2 3 4 5 6 approved_world in
    (after.streams ≡ 1 ∷ []) × (after.client.stream ≡ none)
two_starts_leak_example =
    two_starts_leak approved_world 1 2 3 4 5 6 approved_world-IsReleased
      (unfold start_guard in refl) refl
