-- ===== src/Studio/Resets.antt =====
-- frontend/realtime/src/ttsClone/App.tsx: how a reset of the resources ends.
use mathlib.Core.Path.{subst}
use agent_speak.Base.{
  ℕ, zero, suc, ◌+◌, String, Bool, true, false, List, [], ◌∷◌, Option, none, some, if◌then◌else◌,
  ◌≡◌, refl, sym, ◌⊎◌, inl, inr,
}
use agent_speak.Clone.Api.{CloneStatus, Result, ok, failed}
use agent_speak.Resources.Operation.{ResourceOperation, ready}
use agent_speak.Resources.Request.{Requested, received, thrown}
use agent_speak.Resources.Poll.{
  Notice, phase_seen, reconnect, Outcome, returned, out_of_fuel, wait_for_resource_operation,
}
use agent_speak.Resources.Poll as Poll
use agent_speak.Page.Reset.{default_interval, default_timeout, phase_is_ready}
use agent_speak.Studio.{Studio, idle, error, resource_failed, runtime_ready}
use agent_speak.Studio.Reset.{
  Reset, hear_all, Ended, fails, hint_of, hint_of_cause, is_up, saw_status, up, await_status,
  status_if_ready, after_wait, accepted, begin_reset, finish_reset, reset_resources,
}

-- The service has reported that it is ready, and the page rests.
pub record IsUp (s : Studio) : Type 0 where
  pub service_ready : runtime_ready s.status ≡ true
  pub resting : s.studio_state ≡ idle
  pub phase_ready : s.resource_phase ≡ some ready

abbrev pub IsDown : Studio → Type 0
IsDown s = (s.studio_state ≡ error) × (s.resource_error ≡ some resource_failed)

-- What stays as it was: what is said of sound, the token, and the requests that wait for an answer.
abbrev pub Kept : Studio → Studio → Type 0
Kept b s = (s.media ≡ b.media) × (s.generation_token ≡ b.generation_token) × (s.awaited ≡ b.awaited)

-- The end of a reset that began with a page.
abbrev pub Concluded : Studio → Studio → Type 0
Concluded b s = (s.resource_busy ≡ false) × Kept b s × (IsUp s ⊎ IsDown s)

fails-Concluded :
    (b : Studio) (hint : Option String) (s : Studio)
    → Kept b s
    → Concluded b (finish_reset (fails hint s))
fails-Concluded b hint s k = (refl, k, inr (refl, refl))

up-Concluded :
    (b : Studio) (next : CloneStatus) (s : Studio)
    → is_up next ≡ true
    → Kept b s
    → Concluded b (finish_reset (up (saw_status next s)))
up-Concluded b next s h k =
    (refl, k, inl (record { service_ready = h; resting = refl; phase_ready = refl }))

-- One attempt, with the attempts that follow it.
attempt-Concluded :
    (b : Studio) (answer : Result CloneStatus) (s : Studio) (next_attempt : Studio → Ended)
    → Kept b s
    → ((t : Studio) → Kept b t → Concluded b (finish_reset (next_attempt t)))
    → Concluded b (
        finish_reset (elim answer [
          | failed cause ↦ fails (hint_of cause) s
          | ok next ↦
              if is_up next then up (saw_status next s) else next_attempt (saw_status next s)
        ]))
attempt-Concluded b (failed cause) s next_attempt k r = fails-Concluded b (hint_of cause) s k
attempt-Concluded b (ok next) s next_attempt k r = risen (is_up next) refl
  where
    risen :
        (on : Bool)
        → is_up next ≡ on
        → Concluded b
            (finish_reset (if on then up (saw_status next s) else next_attempt (saw_status next s)))
    risen true e = up-Concluded b next s e k
    risen false e = r (saw_status next s) k

await_status-Concluded :
    (b : Studio) (env : Reset) (attempts n : ℕ) (s : Studio)
    → Kept b s
    → Concluded b (finish_reset (await_status env attempts n s))
unfolding await_status
await_status-Concluded b env zero n s k = fails-Concluded b none s k
await_status-Concluded b env (suc attempts) n s k =
    attempt-Concluded b (env.status n) s (λ t. await_status env attempts (suc n) t) k
      (λ t l. await_status-Concluded b env attempts (suc n) t l)

hear_all-Kept : (b : Studio) (ns : List Notice) (s : Studio) → Kept b s → Kept b (hear_all ns s)
hear_all-Kept b [] s k = k
hear_all-Kept b (phase_seen phase ∷ ns) s k = hear_all-Kept b ns _ k
hear_all-Kept b (reconnect ∷ ns) s k = hear_all-Kept b ns _ k

status_if_ready-Concluded :
    (b : Studio) (env : Reset) (op : ResourceOperation) (s : Studio)
    → Kept b s
    → Concluded b (finish_reset (status_if_ready env op s))
status_if_ready-Concluded b env op s k = by_phase (phase_is_ready op.phase)
  where
    by_phase :
        (on : Bool)
        → Concluded b (
            finish_reset (
              if on
              then await_status env 120 0 s
              else fails none (record s { resource_hint = op.operator_hint })))
    by_phase true = await_status-Concluded b env 120 0 s k
    by_phase false = fails-Concluded b none (record s { resource_hint = op.operator_hint }) k

after_wait-Concluded :
    (b : Studio) (env : Reset) (s : Studio) (r : Outcome × List Notice)
    → Kept b s
    → Concluded b (finish_reset (after_wait env s r))
after_wait-Concluded b env s (returned op, ns) k =
    status_if_ready-Concluded b env op (hear_all ns s) (hear_all-Kept b ns s k)
after_wait-Concluded b env s (Poll.failed cause, ns) k =
    fails-Concluded b (hint_of_cause cause) (hear_all ns s) (hear_all-Kept b ns s k)
after_wait-Concluded b env s (out_of_fuel, ns) k =
    fails-Concluded b none (hear_all ns s) (hear_all-Kept b ns s k)

accepted-Concluded :
    (b : Studio) (env : Reset) (s : Studio) (a : Requested)
    → Kept b s
    → Concluded b (finish_reset (accepted env s a))
accepted-Concluded b env s (thrown cause) k = fails-Concluded b (hint_of_cause cause) s k
accepted-Concluded b env s (received op) k =
    after_wait-Concluded b env (record s { resource_phase = some op.phase }) _ k

-- How the reset of a page ends that is not refused.
pub reset_resources-Concluded :
    (env : Reset) (s : Studio)
    → s.resource_busy ≡ false
    → Concluded (begin_reset s) (reset_resources env s)
unfolding reset_resources
reset_resources-Concluded env s h =
    rw h (accepted-Concluded (begin_reset s) env (begin_reset s) env.reply (refl, refl, refl))

-- If the operation of a reset ends in another phase than ready, the hint for the operator that the
-- operation carries is not shown.
pub reset_resources-hint :
    (env : Reset) (s : Studio) (started op : ResourceOperation) (notices : List Notice)
    → s.resource_busy ≡ false
    → env.reply ≡ received started
    → wait_for_resource_operation env.service default_interval default_timeout
        (default_timeout + 2)
        env.now
      ≡ (returned op, notices)
    → phase_is_ready op.phase ≡ false
    → let after = reset_resources env s in
      (after.resource_hint ≡ none) × (after.resource_error ≡ some resource_failed)
unfolding reset_resources
reset_resources-hint env s started op notices h a w f =
    subst (λ q. (q.resource_hint ≡ none) × (q.resource_error ≡ some resource_failed))
      (sym (unfolded h)) (refl, refl)
  where
    shown : Studio
    shown = hear_all notices (record (begin_reset s) { resource_phase = some started.phase })

    unfolded :
        s.resource_busy ≡ false
        → reset_resources env s
          ≡ finish_reset (fails none (record shown { resource_hint = op.operator_hint }))
    unfolded h = rw (h, a, w, f) refl
