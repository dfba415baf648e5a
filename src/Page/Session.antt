-- ===== src/Page/Session.antt =====
-- frontend/realtime/src/App.tsx: the page over a session. Each handler runs to its end before the next
-- event; a click counts only on a button that is shown and enabled.
use agent_speak.Base.{
  ℕ, String, Bool, false, not, ◌&&◌, ◌||◌, List, [], ◌∷◌, Option, if◌then◌else◌, ◌≡◌,
}
use agent_speak.Realtime.Types.{RealtimeEvent}
use agent_speak.Devices.Gate.{DeviceGateResult}
use agent_speak.Devices.Client.{World, stop, device_change, WorkletMessage, worklet_message}
use agent_speak.Devices.Release.{IsWhole, IsReleased}
use agent_speak.Models.Presentation.{AsrModelId, CorrectionModelId}
use agent_speak.Page.{
  Answer, Page, from_server, audio_envelope, device_invalidated, invalid_event, on_event,
  check_devices, Opening, start_page, stop_page,
}
use agent_speak.Page.Switch.{Gateway, change_models}
use agent_speak.Page.Reset.{Reset, reset_resources}

pub data Event : Type 0 where
  clicks_check : Answer DeviceGateResult → Event
  clicks_start : Opening → Event
  clicks_stop : Bool → Event
  selects_models : Gateway → AsrModelId → CorrectionModelId → Event
  resets : Reset → Event
  hears_server : RealtimeEvent → Option String → Event
  hears_envelope : Option (List ℕ) → Event
  hears_invalid : Option String → Event
  -- What happens to the client by itself: the devices change, its worklet sends a message, its socket
  -- fails or closes.
  changes_devices : Bool → Event
  worklet_sends : WorkletMessage → Bool → Event
  loses_socket : String → Bool → Event

abbrev pub enabled : Bool → Page → Page → Page
enabled on p after = if on then after else p

abbrev pub with_client : Page → World → Page
with_client p w = record p { client = w }

unfoldable pub apply : Page → Event → Page
unfolding check_devices start_page stop_page change_models reset_resources on_event
apply p (clicks_check answer) =
    enabled (not (p.busy || p.resource_busy || p.is_active)) p (check_devices answer p)
apply p (clicks_start opening) =
    enabled (not p.is_active && p.gate.is_ready && not (p.busy || p.resource_busy)) p
      (start_page opening p)
apply p (clicks_stop connected) = enabled (p.is_active && not p.busy) p (stop_page connected p)
apply p (selects_models env asr correction) = change_models env asr correction p
apply p (resets env) = reset_resources env p
apply p (hears_server e message) = on_event (from_server e message) p
apply p (hears_envelope samples) = on_event (audio_envelope samples) p
apply p (hears_invalid message) = on_event (invalid_event message) p
apply p (changes_devices connected) =
    with_client (on_event device_invalidated p) (device_change connected p.client)
apply p (worklet_sends message connected) =
    with_client p (worklet_message message connected p.client)
apply p (loses_socket reason connected) = with_client p (stop reason connected p.client)

abbrev pub run : Page → List Event → Page
run p [] = p
run p (e ∷ es) = run (apply p e) es

-- What is open is what the client holds, and a page that is not active has nothing open.
pub record IsQuiet (p : Page) : Type 0 where
  pub whole : IsWhole p.client
  pub silent : p.is_active ≡ false → IsReleased p.client
