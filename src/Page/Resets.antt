-- ===== src/Page/Resets.antt =====
-- frontend/realtime/src/App.tsx: how a reset of the resources ends.
use agent_speak.Base.{
  ℕ, zero, suc, Bool, true, false, List, [], ◌∷◌, none, some, if◌then◌else◌, or_else, ◌≡◌, refl, ap,
  ◌∙◌, arith, ◌⊎◌, inl, inr, ltb, ◌+◌,
}
use agent_speak.Models.Presentation.{ActiveModels, qwen3_asr}
use agent_speak.Resources.Operation.{ResourceOperation, ResourcePhase, ready, is_terminal}
use agent_speak.Resources.Request.{
  Cause, api, foreign, Requested, received, thrown, request_operation,
}
use agent_speak.Resources.Poll.{
  Service, Notice, phase_seen, reconnect, Outcome, returned, failed, out_of_fuel, Round, finish,
  again, settle, round, notify, wait_loop, wait_for_resource_operation, is_refusal,
}
use agent_speak.Realtime.Types.{model_switched}
use agent_speak.Page.{
  translated, resources_failed, Answer, gives, throws, Page, Provider, dispatch,
  refresh_capabilities, select_from,
}
use agent_speak.Page.Reset.{
  Reset, hear, hear_all, fails, reload, reload_if_ready, phase_is_ready, after_wait, accepted,
  stop_for_reset, finish_reset, begin_reset, reset_resources, unready, default_interval,
  default_timeout,
}

-- A wait that returns an operation has shown the operation's phase last.
abbrev Heard : Outcome × List Notice → Type 0
Heard (returned op, ns) =
    (p : Page)
    → ((hear_all ns p).resource_phase ≡ some op.phase) × ((hear_all ns p).resource_error ≡ none)
Heard (failed cause, ns) = Unit
Heard (out_of_fuel, ns) = Unit

abbrev HeardRound : Round → Type 0
HeardRound (finish o ns) = Heard (o, ns)
HeardRound (again delay ns) = Unit

if-HeardRound :
    (b : Bool) (r s : Round) → HeardRound r → HeardRound s → HeardRound (if b then r else s)
if-HeardRound true r s x y = x
if-HeardRound false r s x y = y

settle-HeardRound : (interval delay : ℕ) (q : Requested) → HeardRound (settle interval delay q)
settle-HeardRound interval delay (received op) =
    if-HeardRound (is_terminal op.phase) _ _ (λ p. (refl, refl)) tt
settle-HeardRound interval delay (thrown cause) = if-HeardRound (is_refusal cause) _ _ tt tt

notify-Heard : (ns : List Notice) (r : Outcome × List Notice) → Heard r → Heard (notify ns r)
notify-Heard [] r h = h
notify-Heard (n ∷ ns) r h = hear-Heard n (notify ns r) (notify-Heard ns r h)
  where
    hear-Heard : (n : Notice) (r : Outcome × List Notice) → Heard r → Heard (r.0, n ∷ r.1)
    hear-Heard n (returned op, later) h = λ p. h (hear p n)
    hear-Heard n (failed cause, later) h = tt
    hear-Heard n (out_of_fuel, later) h = tt

-- One turn of the loop, with the wait that follows a pause.
turn-Heard :
    (on : Bool) (late : Cause) (r : Round) (next : ℕ → Outcome × List Notice)
    → HeardRound r
    → ((delay : ℕ) → Heard (next delay))
    → Heard (elim on [
      | false ↦ (failed late, [])
      | true ↦ elim r [
        | finish outcome notices ↦ (outcome, notices)
        | again delay notices ↦ notify notices (next delay)
      ]
    ])
turn-Heard false late r next s k = tt
turn-Heard true late (finish outcome notices) next s k = s
turn-Heard true late (again delay notices) next s k = notify-Heard notices (next delay) (k delay)

wait_loop-Heard :
    (env : Service) (interval deadline fuel n now delay : ℕ)
    → Heard (wait_loop env interval deadline fuel n now delay)
unfolding wait_loop round
wait_loop-Heard env interval deadline zero n now delay = tt
wait_loop-Heard env interval deadline (suc fuel) n now delay =
    turn-Heard (ltb now deadline) _ (round interval delay (env.reply n))
      (λ later. wait_loop env interval deadline fuel (suc n) (now + env.cost n + later) later)
      (settle-HeardRound interval delay (request_operation (env.reply n)))
      (λ later. wait_loop-Heard env interval deadline fuel (suc n) _ later)

hear-active : (ns : List Notice) (p : Page) → (hear_all ns p).is_active ≡ p.is_active
hear-active [] p = refl
hear-active (phase_seen phase ∷ ns) p = hear-active ns _
hear-active (reconnect ∷ ns) p = hear-active ns _

-- What the page shows after a reset that has come to its end: the gateway's catalog, the selection that
-- it asks for and the providers of the capabilities.
pub record Reloaded (env : Reset) (p : Page) : Type 0 where
  pub active_models : ActiveModels
  pub providers : List Provider
  pub catalog_given : env.catalog ≡ gives active_models
  pub capabilities_given : env.capabilities ≡ gives providers
  pub seen : p.catalog ≡ some active_models
  pub asr_selected :
      p.asr_model
      ≡ or_else active_models.requested_asr_model (or_else active_models.asr_model qwen3_asr)
  pub correction_selected : p.correction_model ≡ active_models.correction_model
  pub inferred : p.inference ≡ (refresh_capabilities providers p).inference
  pub phase_ready : p.resource_phase ≡ some ready
  pub no_error : p.resource_error ≡ none

abbrev pub ResetEnded : Reset → Page → Type 0
ResetEnded env p =
    (p.resource_busy ≡ false)
    × (p.is_active ≡ false)
    × (Reloaded env p ⊎ (p.resource_error ≡ some (translated resources_failed)))

give_up-Ended :
    (env : Reset) (cause : Cause) (p : Page)
    → p.is_active ≡ false
    → ResetEnded env (finish_reset (fails cause p))
give_up-Ended env (api e) p h = (refl, h, inr refl)
give_up-Ended env foreign p h = (refl, h, inr refl)

reload-Ended :
    (env : Reset) (p : Page) (a : Answer ActiveModels) (b : Answer (List Provider))
    → env.catalog ≡ a
    → env.capabilities ≡ b
    → p.resource_phase ≡ some ready
    → p.resource_error ≡ none
    → p.is_active ≡ false
    → ResetEnded env (finish_reset (reload a b p))
unfolding refresh_capabilities select_from
reload-Ended env p (throws cause) b ca cb r e h = give_up-Ended env foreign p h
reload-Ended env p (gives c) (throws cause) ca cb r e h =
    give_up-Ended env foreign (select_from c p) h
reload-Ended env p (gives c) (gives providers) ca cb r e h = (
  refl,
  h,
  inl (record {
    active_models = c;
    providers = providers;
    catalog_given = ca;
    capabilities_given = cb;
    seen = refl;
    asr_selected = refl;
    correction_selected = refl;
    inferred = refl;
    phase_ready = r;
    no_error = e;
  }),
)

phase-ready : (phase : ResourcePhase) → phase_is_ready phase ≡ true → phase ≡ ready
phase-ready ready h = refl
phase-ready _ h = ground arith

reload_if_ready-Ended :
    (env : Reset) (op : ResourceOperation) (p : Page)
    → p.resource_phase ≡ some op.phase
    → p.resource_error ≡ none
    → p.is_active ≡ false
    → ResetEnded env (finish_reset (reload_if_ready env op p))
reload_if_ready-Ended env op p r e h = if-Ended (phase_is_ready op.phase) refl
  where
    if-Ended :
        (b : Bool)
        → phase_is_ready op.phase ≡ b
        → ResetEnded env (
            finish_reset (
              if b
              then reload env.catalog env.capabilities p
              else fails (api (unready op)) (record p { resource_hint = op.operator_hint })))
    if-Ended true t =
        reload-Ended env p env.catalog env.capabilities refl refl
          (r ∙ ap some (phase-ready op.phase t)) e h
    if-Ended false t =
        give_up-Ended env (api (unready op)) (record p { resource_hint = op.operator_hint }) h

after_wait-Ended :
    (env : Reset) (p : Page) (r : Outcome × List Notice)
    → Heard r
    → p.is_active ≡ false
    → ResetEnded env (finish_reset (after_wait env p r))
after_wait-Ended env p (returned op, ns) h e =
    reload_if_ready-Ended env op (hear_all ns p) (h p).0 (h p).1 (hear-active ns p ∙ e)
after_wait-Ended env p (failed cause, ns) h e =
    give_up-Ended env cause (hear_all ns p) (hear-active ns p ∙ e)
after_wait-Ended env p (out_of_fuel, ns) h e =
    give_up-Ended env foreign (hear_all ns p) (hear-active ns p ∙ e)

accepted-Ended :
    (env : Reset) (p : Page) (a : Requested)
    → p.is_active ≡ false
    → ResetEnded env (finish_reset (accepted env p a))
unfolding wait_for_resource_operation
accepted-Ended env p (thrown cause) h = give_up-Ended env cause p h
accepted-Ended env p (received op) h =
    after_wait-Ended env (record p { resource_phase = some op.phase }) _
      (wait_loop-Heard env.service default_interval (env.now + default_timeout)
        (default_timeout + 2) 0 env.now default_interval)
      h

-- A reset that is not refused ends, however the gateway answers, with the page neither busy nor active,
-- and either it shows the gateway's catalog, selection and capabilities, with the phase ready and no
-- error, or it shows that the reset has failed.
pub reset_resources-Ended :
    (env : Reset) (p : Page) → p.resource_busy ≡ false → ResetEnded env (reset_resources env p)
unfolding reset_resources
reset_resources-Ended env p h =
    rw h (accepted-Ended env _ env.reply (stopped env.connected (begin_reset p)))
  where
    stopped :
        (connected : Bool) (p : Page)
        → (dispatch model_switched (stop_for_reset connected p)).is_active ≡ false
    stopped connected p = ground arith
