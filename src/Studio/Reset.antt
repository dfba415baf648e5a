-- ===== src/Studio/Reset.antt =====
-- frontend/realtime/src/ttsClone/App.tsx: `resetResources`. The wait for the operation is that of
-- resources.ts, with its default interval and timeout.
use agent_speak.Base.{
  ℕ, zero, suc, ◌+◌, String, Bool, true, false, List, [], ◌∷◌, Option, none, some, if◌then◌else◌,
}
use agent_speak.Clone.Api.{CloneStatus, Result, ok, failed, api}
use agent_speak.Clone.Api as Api
use agent_speak.Resources.Operation.{ResourceOperation, ResourcePhase, ready}
use agent_speak.Resources.Request.{Cause, foreign, Requested, received, thrown}
use agent_speak.Resources.Request as Request
use agent_speak.Resources.Poll.{
  Service, Notice, phase_seen, reconnect, Outcome, returned, out_of_fuel,
  wait_for_resource_operation,
}
use agent_speak.Resources.Poll as Poll
use agent_speak.Page.Reset.{default_interval, default_timeout, phase_is_ready}
use agent_speak.Audio.Recorder.{discard}
use agent_speak.Audio.Playback.{stop}
use agent_speak.Studio.{
  Studio, Media, unavailable, idle, error, resource_ready, resource_failed, resource_reconnecting,
  runtime_ready,
}

-- What answers a reset: the request itself, the polls of the operation from the time `now` on, and the
-- requests for the status, from 0 on.
pub record Reset : Type 0 where
  pub reply : Requested
  pub service : Service
  pub now : ℕ
  pub status : ℕ → Result CloneStatus

abbrev pub hear_all : List Notice → Studio → Studio
hear_all [] s = s
hear_all (phase_seen phase ∷ ns) s =
    hear_all ns (record s { resource_phase = some phase; resource_error = none })
hear_all (reconnect ∷ ns) s = hear_all ns (record s { resource_error = some resource_reconnecting })

-- Where the `try` block ends: with a failure, there is the hint of what was thrown.
pub data Ended : Type 0 where
  done : Studio → Ended
  fails : Option String → Studio → Ended

abbrev pub hint_of : Api.Failure → Option String
hint_of (api e) = e.operator_hint
hint_of _ = none

abbrev pub hint_of_cause : Cause → Option String
hint_of_cause (Request.api e) = e.operator_hint
hint_of_cause foreign = none

abbrev pub is_up : CloneStatus → Bool
is_up next = runtime_ready (some next)

abbrev pub saw_status : CloneStatus → Studio → Studio
saw_status next s = record s { status = some next }

abbrev pub up : Studio → Ended
up s =
    done (record s { resource_phase = some ready; studio_state = idle; activity = resource_ready })

-- The loop, with the attempts that are left, and what follows it.
unfoldable pub await_status : Reset → ℕ → ℕ → Studio → Ended
await_status env zero n s = fails none s
await_status env (suc attempts) n s = elim (env.status n) [
  | failed cause ↦ fails (hint_of cause) s
  | ok next ↦
      let rest = await_status env attempts (suc n) (saw_status next s) in
      if is_up next then up (saw_status next s) else rest
]

-- The error that an operation in another phase than `ready` throws has no hint of its own.
abbrev pub status_if_ready : Reset → ResourceOperation → Studio → Ended
status_if_ready env op s =
    if phase_is_ready op.phase
    then await_status env 120 0 s
    else fails none (record s { resource_hint = op.operator_hint })

-- The fuel of the wait is enough, so it never runs out.
abbrev pub after_wait : Reset → Studio → Outcome × List Notice → Ended
after_wait env s (returned op, notices) = status_if_ready env op (hear_all notices s)
after_wait env s (Poll.failed cause, notices) = fails (hint_of_cause cause) (hear_all notices s)
after_wait env s (out_of_fuel, notices) = fails none (hear_all notices s)

abbrev pub accepted : Reset → Studio → Requested → Ended
accepted env s (thrown cause) = fails (hint_of_cause cause) s
accepted env s (received op) =
    after_wait env (record s { resource_phase = some op.phase })
      (wait_for_resource_operation env.service default_interval default_timeout
        (default_timeout + 2) env.now)

abbrev pub discard_recording : Media → Media
discard_recording m =
    if m.is_recording then record m { recorder = discard m.recorder; is_recording = false } else m

abbrev pub stop_playing : Media → Media
stop_playing m =
    if m.is_playing then record m { playback = (stop m.playback).0; is_playing = false } else m

abbrev pub begin_reset : Studio → Studio
begin_reset s = record s {
  resource_busy = true;
  resource_error = none;
  resource_hint = none;
  generation_token = suc s.generation_token;
  studio_state = unavailable;
  media = stop_playing (discard_recording s.media);
}

abbrev pub finish_reset : Ended → Studio
finish_reset (done s) = record s { resource_busy = false }
finish_reset (fails hint s) = record s {
  resource_hint = hint;
  resource_error = some resource_failed;
  studio_state = error;
  resource_busy = false;
}

-- What a reset does between its awaits: it begins, and what it is told later.
unfoldable pub start_reset : Studio → Studio
start_reset s = if s.resource_busy then s else begin_reset s

pub data News : Type 0 where
  accepts : ResourcePhase → News
  hears : Notice → News
  sees : CloneStatus → News
  warns : Option String → News
  comes_up : News
  breaks : Option String → News

abbrev pub tell : News → Studio → Studio
tell (accepts phase) s = record s { resource_phase = some phase }
tell (hears notice) s = hear_all (notice ∷ []) s
tell (sees next) s = saw_status next s
tell (warns hint) s = record s { resource_hint = hint }
tell comes_up s = finish_reset (up s)
tell (breaks hint) s = finish_reset (fails hint s)

-- The reset from its beginning to its end.
unfoldable pub reset_resources : Reset → Studio → Studio
reset_resources env s =
    let begun = begin_reset s in
    if s.resource_busy then s else finish_reset (accepted env begun env.reply)
