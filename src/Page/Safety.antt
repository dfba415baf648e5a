-- ===== src/Page/Safety.antt =====
-- frontend/realtime/src/App.tsx: the microphone is open only while the page is active, whatever happens.
use agent_speak.Base.{
  String, Bool, true, false, not, ◌&&◌, ◌||◌, List, [], ◌∷◌, Option, none, some, if◌then◌else◌,
  refl, arith,
}
use agent_speak.Realtime.Types.{model_switched, server_event}
use agent_speak.Realtime.Types.{RealtimeEvent}
use agent_speak.Devices.Gate.{DeviceGateResult}
use agent_speak.Devices.Client as Client
use agent_speak.Devices.Client.{
  pcm, envelope, failure, World, new_world, stop, device_change, invalidate, worklet_message,
  WorkletMessage,
}
use agent_speak.Devices.Release.{
  IsWhole, IsReleased, stop-IsReleased, apply-IsWhole, hears, check_devices-IsWhole,
  invalidate-Owns, apply as apply_call,
}
use agent_speak.Models.Presentation.{AsrModelId, CorrectionModelId, ActiveModels}
use agent_speak.Models.Speech.{Storage, Locale}
use agent_speak.Page.{
  Answer, gives, throws, Shown, Page, start_page, stop_page, check_devices, on_event, new_page,
  dispatch, show_pipeline_error, Provider, from_server, is_pipeline_error, select_from,
  refresh_capabilities,
}
use agent_speak.Page.Switch.{
  Gateway, Flow, goes, fails, stop_if_active, switch_models, roll_back, begin_switch, finish_switch,
  change_models, end_switch, same_selection,
}
use agent_speak.Page.Reset.{
  Reset, Ended, done, hear, hear_all, reload, reload_if_ready, after_wait, accepted, finish_reset,
  begin_reset, stop_for_reset, reset_resources, phase_is_ready, give_up, unready, await_operation,
}
use agent_speak.Page.Reset as Reset
use agent_speak.Resources.Poll.{
  Notice, phase_seen, reconnect, Outcome, returned, failed, out_of_fuel,
}
use agent_speak.Resources.Request.{Requested, received, thrown, Cause, api, foreign}
use agent_speak.Resources.Operation.{ResourceOperation}
use agent_speak.Page.Session.{
  Event, clicks_check, clicks_start, clicks_stop, selects_models, resets, hears_server,
  hears_envelope, hears_invalid, changes_devices, worklet_sends, loses_socket, enabled, apply, run,
  IsQuiet,
}
use agent_speak.Page.Flows.{page_of, switch_models-Keeps}
use agent_speak.Page.Quiet.{
  SameClient, SameClient-IsQuiet, released-IsQuiet, stop-IsQuiet, create_and_start-IsQuiet,
}

enabled-IsQuiet :
    (on : Bool) (p after : Page) → IsQuiet p → IsQuiet after → IsQuiet (enabled on p after)
enabled-IsQuiet true p after h k = k
enabled-IsQuiet false p after h k = h

stop_if_active-IsQuiet : (env : Gateway) (p : Page) → IsQuiet p → IsQuiet (stop_if_active env p)
stop_if_active-IsQuiet env p h =
    enabled-IsQuiet p.is_active p _ h (stop-IsQuiet "model-switch" env.connected p _ refl h)

switch_models-IsQuiet :
    (env : Gateway) (asr : AsrModelId) (correction : CorrectionModelId) (p : Page)
    → IsQuiet p
    → IsQuiet (page_of (switch_models env asr correction p))
switch_models-IsQuiet env asr correction p h =
    switch_models-Keeps IsQuiet
      (λ c q k. SameClient-IsQuiet q _ (record { same_client = refl; same_active = refl }) k) env
      asr correction p
      (SameClient-IsQuiet (stop_if_active env p) _
        (record { same_client = refl; same_active = refl }) (stop_if_active-IsQuiet env p h))

roll_back-SameClient :
    (cause : Shown) (asr : AsrModelId) (correction : CorrectionModelId) (a : Answer ActiveModels)
    (p : Page)
    → SameClient p (end_switch (roll_back cause asr correction a p))
roll_back-SameClient cause asr correction (throws other) p = record {
  same_client = refl;
  same_active = refl;
}
roll_back-SameClient cause asr correction (gives c) p = record {
  same_client = refl;
  same_active = refl;
}

end_switch-IsQuiet : (p : Page) → IsQuiet p → IsQuiet (end_switch p)
end_switch-IsQuiet p h =
    SameClient-IsQuiet p _ (record { same_client = refl; same_active = refl }) h

finish_switch-IsQuiet :
    (env : Gateway) (resume : Bool) (next_asr : AsrModelId) (next_correction : CorrectionModelId)
    (asr : AsrModelId) (correction : CorrectionModelId) (f : Flow (Unit {0}))
    → IsQuiet (page_of f)
    → IsQuiet (finish_switch env resume next_asr next_correction asr correction f)
finish_switch-IsQuiet env true next_asr next_correction asr correction (goes u p n) h =
    end_switch-IsQuiet _ (create_and_start-IsQuiet false next_asr next_correction env.opening p h)
finish_switch-IsQuiet env false next_asr next_correction asr correction (goes u p n) h =
    end_switch-IsQuiet p h
finish_switch-IsQuiet env resume next_asr next_correction asr correction (fails cause p n) h =
    SameClient-IsQuiet p _ (roll_back-SameClient cause asr correction (env.catalog n) p) h

-- A refused handler leaves the page as it was.
refuse-IsQuiet :
    (on : Bool) (p after : Page) → IsQuiet p → IsQuiet after → IsQuiet (if on then p else after)
refuse-IsQuiet true p after h k = h
refuse-IsQuiet false p after h k = k

change_models-IsQuiet :
    (env : Gateway) (asr : AsrModelId) (correction : CorrectionModelId) (p : Page)
    → IsQuiet p
    → IsQuiet (change_models env asr correction p)
unfolding change_models
change_models-IsQuiet env asr correction p h =
    refuse-IsQuiet (p.switching || p.resource_busy || same_selection asr correction p) p _ h (
      finish_switch-IsQuiet env _ asr correction p.asr_model p.correction_model
        (switch_models env asr correction (begin_switch asr correction p))
        (switch_models-IsQuiet env asr correction (begin_switch asr correction p)
          (SameClient-IsQuiet p _ (record { same_client = refl; same_active = refl }) h)))

hear_all-SameClient :
    (ns : List Notice) (p q : Page) → SameClient p q → SameClient p (hear_all ns q)
hear_all-SameClient [] p q s = s
hear_all-SameClient (phase_seen phase ∷ ns) p q s =
    hear_all-SameClient ns p (hear q (phase_seen phase))
      (record { same_client = s.same_client; same_active = s.same_active })
hear_all-SameClient (reconnect ∷ ns) p q s =
    hear_all-SameClient ns p (hear q reconnect)
      (record { same_client = s.same_client; same_active = s.same_active })

fail-SameClient :
    (cause : Cause) (p q : Page)
    → SameClient p q
    → SameClient p (finish_reset (Reset.fails cause q))
fail-SameClient (api e) p q s = record { same_client = s.same_client; same_active = s.same_active }
fail-SameClient foreign p q s = record { same_client = s.same_client; same_active = s.same_active }

reload-SameClient :
    (catalog : Answer ActiveModels) (capabilities : Answer (List Provider)) (p q : Page)
    → SameClient p q
    → SameClient p (finish_reset (reload catalog capabilities q))
unfolding select_from refresh_capabilities
reload-SameClient (throws cause) capabilities p q s = fail-SameClient foreign p q s
reload-SameClient (gives c) (throws cause) p q s = record {
  same_client = s.same_client;
  same_active = s.same_active;
}
reload-SameClient (gives c) (gives providers) p q s = record {
  same_client = s.same_client;
  same_active = s.same_active;
}

ended_either :
    (b : Bool) (p : Page) (x y : Ended)
    → SameClient p (finish_reset x)
    → SameClient p (finish_reset y)
    → SameClient p (finish_reset (if b then x else y))
ended_either true p x y s t = s
ended_either false p x y s t = t

reload_if_ready-SameClient :
    (env : Reset) (op : ResourceOperation) (p q : Page)
    → SameClient p q
    → SameClient p (finish_reset (reload_if_ready env op q))
reload_if_ready-SameClient env op p q s =
    ended_either (phase_is_ready op.phase) p (reload env.catalog env.capabilities q)
      (Reset.fails (api (unready op)) (record q { resource_hint = op.operator_hint }))
      (reload-SameClient env.catalog env.capabilities p q s)
      (record { same_client = s.same_client; same_active = s.same_active })

after_wait-SameClient :
    (env : Reset) (p : Page) (r : Outcome × List Notice)
    → SameClient p (finish_reset (after_wait env p r))
after_wait-SameClient env p (returned op, ns) =
    reload_if_ready-SameClient env op p (hear_all ns p)
      (hear_all-SameClient ns p p (record { same_client = refl; same_active = refl }))
after_wait-SameClient env p (failed cause, ns) =
    fail-SameClient cause p (hear_all ns p)
      (hear_all-SameClient ns p p (record { same_client = refl; same_active = refl }))
after_wait-SameClient env p (out_of_fuel, ns) =
    fail-SameClient foreign p (hear_all ns p)
      (hear_all-SameClient ns p p (record { same_client = refl; same_active = refl }))

accepted-SameClient :
    (env : Reset) (p : Page) (reply : Requested)
    → SameClient p (finish_reset (accepted env p reply))
accepted-SameClient env p (thrown cause) =
    fail-SameClient cause p p (record { same_client = refl; same_active = refl })
accepted-SameClient env p (received op) =
    let q = record p { resource_phase = some op.phase } in
    let s = after_wait-SameClient env q (await_operation env q) in
    record { same_client = s.same_client; same_active = s.same_active }

stop_for_reset-IsQuiet :
    (connected : Bool) (p : Page) → IsQuiet p → IsQuiet (stop_for_reset connected p)
stop_for_reset-IsQuiet connected p h =
    enabled-IsQuiet p.is_active p _ h (stop-IsQuiet "resource-reset" connected p _ refl h)

reset_resources-IsQuiet : (env : Reset) (p : Page) → IsQuiet p → IsQuiet (reset_resources env p)
unfolding reset_resources
reset_resources-IsQuiet env p h =
    let begun = begin_reset p in
    let halted = stop_for_reset env.connected begun in
    let q = dispatch model_switched halted in
    refuse-IsQuiet p.resource_busy p _ h (
      SameClient-IsQuiet q _ (accepted-SameClient env q env.reply) (
        SameClient-IsQuiet halted q (record { same_client = refl; same_active = refl })
          (stop_for_reset-IsQuiet env.connected begun
            (SameClient-IsQuiet p begun (record { same_client = refl; same_active = refl }) h))))

-- The messages of the worklet: only a failure stops the client.
worklet_message-IsReleased :
    (m : WorkletMessage) (connected : Bool) (w : World)
    → IsWhole w
    → IsReleased w
    → IsReleased (worklet_message m connected w)
unfolding worklet_message
worklet_message-IsReleased pcm connected w v r = ground arith
worklet_message-IsReleased envelope connected w v r = ground arith
worklet_message-IsReleased failure connected w v r =
    stop-IsReleased "worklet_error" connected w v.owns

check_devices-IsReleased :
    (result : Option DeviceGateResult) (w : World)
    → IsReleased w
    → IsReleased (Client.check_devices result w)
unfolding Client.check_devices
check_devices-IsReleased none w r = ground arith
check_devices-IsReleased (some result) w r = ground arith

check_devices-IsQuiet :
    (answer : Answer DeviceGateResult) (p : Page) → IsQuiet p → IsQuiet (check_devices answer p)
unfolding check_devices
check_devices-IsQuiet (throws cause) p h =
    SameClient-IsQuiet p _ (record { same_client = refl; same_active = refl }) h
check_devices-IsQuiet (gives result) p h = record {
  whole = check_devices-IsWhole (some result) p.client h.whole;
  silent = λ e. check_devices-IsReleased (some result) p.client (h.silent e);
}

shown-SameClient :
    (failed : Bool) (message : Option String) (p q : Page)
    → SameClient p q
    → SameClient p (if failed then show_pipeline_error message q else q)
shown-SameClient true message p q s = record {
  same_client = s.same_client;
  same_active = s.same_active;
}
shown-SameClient false message p q s = s

server-SameClient :
    (e : RealtimeEvent) (message : Option String) (p : Page)
    → SameClient p (on_event (from_server e message) p)
unfolding on_event
server-SameClient e message p =
    shown-SameClient (is_pipeline_error e.event_type) message p (dispatch (server_event e) p)
      (record { same_client = refl; same_active = refl })

apply-IsQuiet : (p : Page) (e : Event) → IsQuiet p → IsQuiet (apply p e)
unfolding apply start_page stop_page on_event device_change apply_call
apply-IsQuiet p (clicks_check answer) h =
    enabled-IsQuiet (not (p.busy || p.resource_busy || p.is_active)) p _ h
      (check_devices-IsQuiet answer p h)
apply-IsQuiet p (clicks_start opening) h =
    let begun = record p { busy = true; shown_error = none } in
    let k =
      create_and_start-IsQuiet true p.asr_model p.correction_model opening begun
        (SameClient-IsQuiet p begun (record { same_client = refl; same_active = refl }) h) in
    enabled-IsQuiet (not p.is_active && p.gate.is_ready && not (p.busy || p.resource_busy)) p _ h
      (SameClient-IsQuiet _ _ (record { same_client = refl; same_active = refl }) k)
apply-IsQuiet p (clicks_stop connected) h =
    enabled-IsQuiet (p.is_active && not p.busy) p _ h (stop-IsQuiet "user" connected p _ refl h)
apply-IsQuiet p (selects_models env asr correction) h = change_models-IsQuiet env asr correction p h
apply-IsQuiet p (resets env) h = reset_resources-IsQuiet env p h
apply-IsQuiet p (hears_server e message) h =
    SameClient-IsQuiet p _ (server-SameClient e message p) h
apply-IsQuiet p (hears_envelope samples) h =
    SameClient-IsQuiet p _ (record { same_client = refl; same_active = refl }) h
apply-IsQuiet p (hears_invalid message) h =
    SameClient-IsQuiet p _ (record { same_client = refl; same_active = refl }) h
apply-IsQuiet p (changes_devices connected) h = released-IsQuiet _ (
    stop-IsReleased "devicechange" connected (invalidate p.client)
      (invalidate-Owns p.client h.whole.owns))
apply-IsQuiet p (worklet_sends message connected) h = record {
  whole = apply-IsWhole p.client (hears message connected) h.whole;
  silent = λ e. worklet_message-IsReleased message connected p.client h.whole (h.silent e);
}
apply-IsQuiet p (loses_socket reason connected) h = stop-IsQuiet reason connected p _ refl h

run-IsQuiet : (p : Page) (es : List Event) → IsQuiet p → IsQuiet (run p es)
run-IsQuiet p [] h = h
run-IsQuiet p (e ∷ es) h = run-IsQuiet (apply p e) es (apply-IsQuiet p e h)

-- Whatever is clicked, chosen and answered, and whatever the devices, the worklet and the socket do, one
-- handler after another: what is open in the browser is what the client holds, and while the page is
-- not active, no stream, socket or context is open.
pub run-new_page :
    (storage : Storage) (locale : Locale) (es : List Event)
    → IsQuiet (run (new_page storage locale) es)
unfolding new_page
run-new_page storage locale es =
    run-IsQuiet (new_page storage locale) es
      (record { whole = ground arith; silent = λ e. ground arith })
