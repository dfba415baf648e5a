-- ===== src/Page/Reset.antt =====
-- frontend/realtime/src/App.tsx: `resetResources`. The wait for the operation is that of resources.ts,
-- with its default interval and timeout.
use agent_speak.Base.{ℕ, ◌+◌, Bool, true, false, List, [], ◌∷◌, none, some, if◌then◌else◌, or_else}
use agent_speak.Realtime.Types.{model_switched}
use agent_speak.Devices.Client.{stop}
use agent_speak.Models.Presentation.{ActiveModels}
use agent_speak.Resources.Operation.{ResourceOperation, ResourceApiError, ResourcePhase, ready}
use agent_speak.Resources.Request.{Cause, api, foreign, Requested, received, thrown}
use agent_speak.Resources.Poll.{
  Service, Notice, phase_seen, reconnect, Outcome, returned, failed, out_of_fuel,
  wait_for_resource_operation,
}
use agent_speak.Page.{
  translated, resources_failed, resources_reconnecting, Answer, gives, throws, Page, dispatch,
  Provider, refresh_capabilities, select_from,
}

-- What answers a reset: the request itself, the polls of the operation from the time `now` on, the
-- catalog and the capabilities.
pub record Reset : Type 0 where
  pub reply : Requested
  pub service : Service
  pub now : ℕ
  pub catalog : Answer ActiveModels
  pub capabilities : Answer (List Provider)
  pub connected : Bool

abbrev pub default_interval : ℕ
default_interval = 500

abbrev pub default_timeout : ℕ
default_timeout = 420000

-- The callbacks `onPhase` and `onReconnect`.
abbrev pub hear : Page → Notice → Page
hear p (phase_seen phase) = record p { resource_phase = some phase; resource_error = none }
hear p reconnect = record p { resource_error = some (translated resources_reconnecting) }

abbrev pub hear_all : List Notice → Page → Page
hear_all [] p = p
hear_all (n ∷ ns) p = hear_all ns (hear p n)

-- Where the `try` block ends.
pub data Ended : Type 0 where
  done : Page → Ended
  fails : Cause → Page → Ended

abbrev pub phase_is_ready : ResourcePhase → Bool
phase_is_ready ready = true
phase_is_ready _ = false

-- The error for an operation that ends in another phase than `ready`.
abbrev pub unready : ResourceOperation → ResourceApiError
unready op = record {
  code = or_else op.error_code "resource_operation_failed";
  status = 503;
  message = "resources.failed";
  retryable = true;
  operator_hint = op.operator_hint;
}

abbrev pub reload : Answer ActiveModels → Answer (List Provider) → Page → Ended
reload (throws cause) capabilities p = fails foreign p
reload (gives c) (throws cause) p = fails foreign (select_from c p)
reload (gives c) (gives providers) p = done (refresh_capabilities providers (select_from c p))

abbrev pub reload_if_ready : Reset → ResourceOperation → Page → Ended
reload_if_ready env op p =
    if phase_is_ready op.phase
    then reload env.catalog env.capabilities p
    else fails (api (unready op)) (record p { resource_hint = op.operator_hint })

-- The fuel of the wait is enough, so it never runs out.
abbrev pub after_wait : Reset → Page → Outcome × List Notice → Ended
after_wait env p (returned op, notices) = reload_if_ready env op (hear_all notices p)
after_wait env p (failed cause, notices) = fails cause (hear_all notices p)
after_wait env p (out_of_fuel, notices) = fails foreign (hear_all notices p)

abbrev pub await_operation : Reset → Page → Outcome × List Notice
await_operation env p =
    wait_for_resource_operation env.service default_interval default_timeout (default_timeout + 2)
      env.now

abbrev pub accepted : Reset → Page → Requested → Ended
accepted env p (thrown cause) = fails cause p
accepted env p (received op) =
    let q = record p { resource_phase = some op.phase } in after_wait env q (await_operation env q)

abbrev pub stop_for_reset : Bool → Page → Page
stop_for_reset connected p =
    if p.is_active
    then record p { client = stop "resource-reset" connected p.client; is_active = false }
    else p

-- The `catch` block.
abbrev pub give_up : Cause → Page → Page
give_up (api e) p = record p {
  resource_hint = e.operator_hint;
  resource_error = some (translated resources_failed);
}
give_up foreign p = record p { resource_error = some (translated resources_failed) }

abbrev pub finish_reset : Ended → Page
finish_reset (done p) = record p { resource_busy = false }
finish_reset (fails cause p) = record (give_up cause p) { resource_busy = false }

abbrev pub begin_reset : Page → Page
begin_reset p = record p { resource_busy = true; resource_error = none; resource_hint = none }

unfoldable pub reset_resources : Reset → Page → Page
unfolding refresh_capabilities select_from
reset_resources env p =
    let stopped = dispatch model_switched (stop_for_reset env.connected (begin_reset p)) in
    if p.resource_busy then p else finish_reset (accepted env stopped env.reply)
