-- ===== src/Devices/Client.antt =====
-- frontend/realtime/src/audio/realtimeClient.ts. Streams, sockets and audio contexts are known by
-- numbers, and `World` holds beside the client those of them that are open in the browser, the
-- messages sent and the events given to `onEvent`, oldest first. An asynchronous method is cut at
-- its waits: `start` into `start_guard`, `start_granted`, `start_loaded` and `start_opened`.
use agent_speak.Base.{
  ℕ, String, Bool, true, false, not, ◌&&◌, ◌||◌, List, [], ◌∷◌, ◌++◌, Option, none, some, ◌==◌,
  if◌then◌else◌, is_some,
}
use agent_speak.Devices.Gate.{DeviceGateResult, GateReason, unchecked, denied}

pub data ClientEvent : Type 0 where
  device_ready device_unavailable : GateReason → ClientEvent
  device_invalidated client_started audio_envelope server_event invalid_event : ClientEvent
  client_stopped : String → ClientEvent

pub data Message : Type 0 where
  stream_start stream_stop pcm_frame : Message

pub record RealtimeClient : Type 0 where
  pub gate : DeviceGateResult
  pub stream : Option ℕ
  pub socket : Option ℕ
  pub context : Option ℕ
  pub source : Bool
  pub worklet : Bool
  pub watching : Bool

pub record World : Type 0 where
  pub client : RealtimeClient
  pub streams : List ℕ
  pub sockets : List ℕ
  pub contexts : List ℕ
  pub sent : List Message
  pub events : List ClientEvent

abbrev pub new_client : RealtimeClient
new_client = record {
  gate = record { is_ready = false; input = none; output = none; reason = unchecked };
  stream = none;
  socket = none;
  context = none;
  source = false;
  worklet = false;
  watching = false;
}

abbrev pub new_world : World
new_world = record {
  client = new_client;
  streams = [];
  sockets = [];
  contexts = [];
  sent = [];
  events = [];
}

abbrev pub remove : ℕ → List ℕ → List ℕ
remove n [] = []
remove n (x ∷ xs) = if x == n then remove n xs else x ∷ remove n xs

abbrev pub close_all : Option ℕ → List ℕ → List ℕ
close_all none open_ones = open_ones
close_all (some n) open_ones = remove n open_ones

abbrev pub emit : ClientEvent → World → World
emit e w = record w { events = w.events ++ e ∷ [] }

abbrev pub send : Message → World → World
send m w = record w { sent = w.sent ++ m ∷ [] }

-- `stop`; `connected` says whether the socket's `readyState` is 1. An open context is closed, a
-- closed one is not open in the browser any more.
unfoldable pub stop : String → Bool → World → World
stop reason connected w =
    let c = w.client in
    let told = if is_some c.socket && connected then send stream_stop w else w in
    emit (client_stopped reason) (record told {
      client = record c {
        stream = none;
        socket = none;
        context = none;
        source = false;
        worklet = false;
      };
      streams = close_all c.stream w.streams;
      sockets = close_all c.socket w.sockets;
      contexts = close_all c.context w.contexts;
    })

pub data StartError : Type 0 where
  not_approved already_active : StartError

-- The two tests before the first wait; `none` lets the start go on. A gate that is ready has an
-- input, and a client that has one has media devices.
unfoldable pub start_guard : RealtimeClient → Option StartError
start_guard c =
    if not c.gate.is_ready || not (is_some c.gate.input)
    then some not_approved
    else if is_some c.stream || is_some c.socket
    then some already_active
    else none

-- `getUserMedia` has given the stream, and the context is made.
unfoldable pub start_granted : ℕ → ℕ → World → World
start_granted stream context w = record w {
  client = record w.client { stream = some stream; context = some context };
  streams = stream ∷ w.streams;
  contexts = context ∷ w.contexts;
}

-- The worklet's module is loaded; its nodes and the socket are made.
unfoldable pub start_loaded : ℕ → World → World
start_loaded socket w = record w {
  client = record w.client { source = true; worklet = true; socket = some socket };
  sockets = socket ∷ w.sockets;
}

-- The socket is open.
unfoldable pub start_opened : World → World
start_opened w = emit client_started (send stream_start w)

-- Where a start fails, if it does.
pub data StartFate : Type 0 where
  refused unloaded unconnected opened : StartFate

pub data Started : Type 0 where
  active : Started
  rejected : StartError → Started
  broken : Started

-- What follows the two tests, with nothing else between the waits.
unfoldable pub start_run : ℕ → ℕ → ℕ → StartFate → World → World × Started
unfolding stop start_granted start_loaded start_opened
start_run stream context socket refused w = (stop "start_failed" false w, broken)
start_run stream context socket unloaded w =
    (stop "start_failed" false (start_granted stream context w), broken)
start_run stream context socket unconnected w =
    (stop "start_failed" false (start_loaded socket (start_granted stream context w)), broken)
start_run stream context socket opened w =
    (start_opened (start_loaded socket (start_granted stream context w)), active)

unfoldable pub start : ℕ → ℕ → ℕ → StartFate → World → World × Started
unfolding start_run
start stream context socket fate w = elim (start_guard w.client) [
  | some e ↦ (w, rejected e)
  | none ↦ start_run stream context socket fate w
]

-- `checkDevices`, with the gate's result; without media devices nothing is watched.
unfoldable pub check_devices : Option DeviceGateResult → World → World
check_devices none w = record w { client = record w.client { gate = denied } }
check_devices (some result) w =
    emit (if result.is_ready then device_ready result.reason else device_unavailable result.reason)
      (record w { client = record w.client { gate = result; watching = true } })

-- The listener of `devicechange`: what it does before its stop, and all of it.
abbrev pub invalidate : World → World
invalidate w =
    let gate : DeviceGateResult = record {
      is_ready = false;
      input = none;
      output = none;
      reason = unchecked;
    } in
    emit device_invalidated (record w { client = record w.client { gate = gate } })

unfoldable pub device_change : Bool → World → World
device_change connected w = stop "devicechange" connected (invalidate w)

abbrev pub unwatch : World → World
unwatch w = record w { client = record w.client { watching = false } }

unfoldable pub dispose : Bool → World → World
dispose connected w = stop "dispose" connected (unwatch w)

pub data WorkletMessage : Type 0 where
  pcm envelope failure : WorkletMessage

-- The handler of the worklet's messages, set by `start_opened`.
unfoldable pub worklet_message : WorkletMessage → Bool → World → World
worklet_message pcm connected w =
    if is_some w.client.socket && connected then send pcm_frame w else w
worklet_message envelope connected w = emit audio_envelope w
worklet_message failure connected w = stop "worklet_error" connected w

-- `handleSocketMessage`, by whether the text is JSON.
unfoldable pub handle_socket_message : Bool → World → World
handle_socket_message parsed w = emit (if parsed then server_event else invalid_event) w
