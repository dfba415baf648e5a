-- ===== src/Devices/Release.antt =====
-- frontend/realtime/src/audio/realtimeClient.ts: nothing stays open that the client does not hold,
-- when each start runs to its end.
use agent_speak.Base.{
  ℕ, String, Bool, List, [], ◌∷◌, Option, none, some, ◌≡◌, refl, inl, inr, arith, Option-cases,
}
use agent_speak.Devices.Gate.{DeviceGateResult}
use agent_speak.Devices.Client.{
  World, RealtimeClient, new_world, close_all, stop, StartError, start_guard, StartFate, refused,
  unloaded, unconnected, opened, rejected, start, check_devices, device_change, dispose,
  WorkletMessage, worklet_message, handle_socket_message, start_run, invalidate, unwatch,
}

abbrev pub held : Option ℕ → List ℕ
held none = []
held (some n) = n ∷ []

-- What is open is what the client holds.
pub record Owns (w : World) : Type 0 where
  pub streams_held : w.streams ≡ held w.client.stream
  pub sockets_held : w.sockets ≡ held w.client.socket
  pub contexts_held : w.contexts ≡ held w.client.context

-- A client that is not active holds nothing at all.
pub record IsWhole (w : World) : Type 0 where
  pub owns : Owns w
  pub no_context : w.client.stream ≡ none → w.client.context ≡ none

close_all-held : (o : Option ℕ) → close_all o (held o) ≡ []
close_all-held none = refl
close_all-held (some n) = ground arith

pub record IsReleased (w : World) : Type 0 where
  pub no_streams : w.streams ≡ []
  pub no_sockets : w.sockets ≡ []
  pub no_contexts : w.contexts ≡ []
  pub idle_stream : w.client.stream ≡ none
  pub idle_socket : w.client.socket ≡ none
  pub idle_context : w.client.context ≡ none

-- A stop, for whatever reason, leaves no stream, socket or context open and none held.
pub stop-IsReleased :
    (reason : String) (connected : Bool) (w : World) → Owns w → IsReleased (stop reason connected w)
unfolding stop
stop-IsReleased reason connected w o = ground (
  arith,
  close_all-held w.client.stream,
  close_all-held w.client.socket,
  close_all-held w.client.context,
)

pub released-IsWhole : (w : World) → IsReleased w → IsWhole w
released-IsWhole w r = ground arith

pub data Call : Type 0 where
  starts : (stream context socket : ℕ) → StartFate → Call
  stops : String → Bool → Call
  checks : Option DeviceGateResult → Call
  changes disposes : Bool → Call
  hears : WorkletMessage → Bool → Call
  receives : Bool → Call

unfoldable pub apply : World → Call → World
apply w (starts stream context socket fate) = (start stream context socket fate w).0
apply w (stops reason connected) = stop reason connected w
apply w (checks result) = check_devices result w
apply w (changes connected) = device_change connected w
apply w (disposes connected) = dispose connected w
apply w (hears m connected) = worklet_message m connected w
apply w (receives parsed) = handle_socket_message parsed w

unfoldable pub run : World → List Call → World
run w [] = w
run w (c ∷ cs) = run (apply w c) cs

pub guard-idle : (c : RealtimeClient) → start_guard c ≡ none → (c.stream ≡ none) × (c.socket ≡ none)
unfolding start_guard
guard-idle c h = ground arith

pub start_run-IsWhole :
    (stream context socket : ℕ) (fate : StartFate) (w : World)
    → IsReleased w
    → IsWhole (start_run stream context socket fate w).0
unfolding start_run
start_run-IsWhole stream context socket refused w r = ground arith
start_run-IsWhole stream context socket unloaded w r = ground arith
start_run-IsWhole stream context socket unconnected w r = ground arith
start_run-IsWhole stream context socket opened w r = ground arith

pub start_clear :
    (stream context socket : ℕ) (fate : StartFate) (w : World)
    → start_guard w.client ≡ none
    → start stream context socket fate w ≡ start_run stream context socket fate w
unfolding start
start_clear stream context socket fate w h = rw (h, start)

pub start_refused :
    (stream context socket : ℕ) (fate : StartFate) (w : World) (e : StartError)
    → start_guard w.client ≡ some e
    → start stream context socket fate w ≡ (w, rejected e)
unfolding start
start_refused stream context socket fate w e h = rw (h, start)

pub IsReleased-of_idle :
    (w : World) → IsWhole w → w.client.stream ≡ none → w.client.socket ≡ none → IsReleased w
IsReleased-of_idle w v s k =
    ground (arith, v.no_context s, v.owns.streams_held, v.owns.sockets_held, v.owns.contexts_held)

pub start-IsWhole :
    (stream context socket : ℕ) (fate : StartFate) (w : World)
    → IsWhole w
    → IsWhole (start stream context socket fate w).0
start-IsWhole stream context socket fate w v = elim (Option-cases (start_guard w.client)) [
  | inr (e, given) ↦ rw (start_refused stream context socket fate w e given) v
  | inl clear ↦
      let (no_stream, no_socket) = guard-idle w.client clear in
      rw (start_clear stream context socket fate w clear) (
        start_run-IsWhole stream context socket fate w (IsReleased-of_idle w v no_stream no_socket))
]

pub invalidate-Owns : (w : World) → Owns w → Owns (invalidate w)
invalidate-Owns w o = ground arith

unwatch-Owns : (w : World) → Owns w → Owns (unwatch w)
unwatch-Owns w o = ground arith

pub check_devices-IsWhole :
    (result : Option DeviceGateResult) (w : World) → IsWhole w → IsWhole (check_devices result w)
unfolding check_devices
check_devices-IsWhole none w v = ground arith
check_devices-IsWhole (some result) w v = ground arith

pub apply-IsWhole : (w : World) (c : Call) → IsWhole w → IsWhole (apply w c)
unfolding apply device_change dispose worklet_message handle_socket_message
apply-IsWhole w (starts stream context socket fate) v = start-IsWhole stream context socket fate w v
apply-IsWhole w (stops reason connected) v =
    released-IsWhole (stop reason connected w) (stop-IsReleased reason connected w v.owns)
apply-IsWhole w (checks result) v = check_devices-IsWhole result w v
apply-IsWhole w (changes connected) v =
    released-IsWhole (device_change connected w)
      (stop-IsReleased "devicechange" connected (invalidate w) (invalidate-Owns w v.owns))
apply-IsWhole w (disposes connected) v =
    released-IsWhole (dispose connected w)
      (stop-IsReleased "dispose" connected (unwatch w) (unwatch-Owns w v.owns))
apply-IsWhole w (hears WorkletMessage.failure connected) v =
    released-IsWhole (stop "worklet_error" connected w)
      (stop-IsReleased "worklet_error" connected w v.owns)
apply-IsWhole w (hears WorkletMessage.envelope connected) v = ground arith
apply-IsWhole w (hears WorkletMessage.pcm connected) v = ground arith
apply-IsWhole w (receives parsed) v = ground arith

run-IsWhole : (w : World) (cs : List Call) → IsWhole w → IsWhole (run w cs)
unfolding run
run-IsWhole w [] v = v
run-IsWhole w (c ∷ cs) v = run-IsWhole (apply w c) cs (apply-IsWhole w c v)

-- After any sequence of calls, each start running to its end or its failure before the next call,
-- the open streams, sockets and contexts are those that the client holds; so a start that fails, a
-- stop, a change of devices, a failure of the worklet and a disposal leave none behind.
run-new_world : (cs : List Call) → IsWhole (run new_world cs)
run-new_world cs = run-IsWhole new_world cs (ground arith)
