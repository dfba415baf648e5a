-- ===== src/Page/Switch.antt =====
-- frontend/realtime/src/App.tsx: `changeModels`. The gateway's answers are numbered: `catalog n` is the
-- answer to the request n for the catalog, from 0 on.
use agent_speak.Base.{
  ℕ, zero, suc, String, Bool, true, false, not, ◌&&◌, ◌||◌, Option, none, some, str_eq,
  if◌then◌else◌, or_else,
}
use agent_speak.Realtime.Types.{model_switched}
use agent_speak.Devices.Client.{stop}
use agent_speak.Models.Presentation.{
  AsrModelId, CorrectionModelId, ActiveModels, is_asr, same_asr, same_correction,
}
use agent_speak.Page.{
  Shown, says, translated, model_switch, Answer, gives, throws, Page, Opening, dispatch,
  create_and_start,
}

pub record Gateway : Type 0 where
  pub catalog : ℕ → Answer ActiveModels
  pub activate : AsrModelId → CorrectionModelId → Answer ActiveModels
  pub opening : Opening
  -- Whether the client's socket is open when it is stopped.
  pub connected : Bool

-- How far a switch has come: the page, the requests for the catalog so far, and what it ended with.
pub data Flow {ℓ} (A : Type ℓ) : Type ℓ where
  goes : A → Page → ℕ → Flow A
  fails : Shown → Page → ℕ → Flow A

infixl 5 ◌>>=◌
abbrev pub ◌>>=◌ {ℓ κ} :
    {Found : Type ℓ} {Kept : Type κ} → Flow Found → (Found → Page → ℕ → Flow Kept) → Flow Kept
fails cause p n >>= next = fails cause p n
goes found p n >>= next = next found p n

abbrev pub saw : ActiveModels → Page → Page
saw c p = record p { catalog = some c }

-- A falsy lease is none or the empty text.
abbrev pub is_leased : Option String → Bool
is_leased none = false
is_leased (some by) = not (str_eq by "")

abbrev pub noted : Answer ActiveModels → Page → ℕ → Flow ActiveModels
noted (gives c) p n = goes c (saw c p) n
noted (throws cause) p n = fails cause p n

-- The first loop waits until no session holds the models.
unfoldable pub await_release : Gateway → ℕ → Page → ℕ → Flow (Unit {0})
await_release env zero p n = goes tt p n
await_release env (suc attempts) p n = noted (env.catalog n) p (suc n) >>= λ c q k.
    let rest = await_release env attempts q k in if is_leased c.leased_by then rest else goes tt q k

abbrev pub has_ended : ActiveModels → Bool
has_ended c = str_eq c.state "failed" || str_eq c.state "unavailable"

-- The second loop waits until the models are ready or have failed.
unfoldable pub await_ready : Gateway → ℕ → ActiveModels → Page → ℕ → Flow ActiveModels
await_ready env zero c p n = goes c p n
await_ready env (suc attempts) c p n =
    let asked = noted (env.catalog n) p (suc n) >>= λ d q k.
    let rest = await_ready env attempts d q k in if has_ended d then goes d q k else rest in
    if str_eq c.state "ready" then goes c p n else asked

abbrev pub switch_error : ActiveModels → Shown
switch_error c = elim c.error_code [ none ↦ translated model_switch | some code ↦ says code ]

-- `catalog.active.state !== 'ready' || catalog.active.asr_model !== nextAsr`
unfoldable pub confirm : AsrModelId → ActiveModels → Page → ℕ → Flow (Unit {0})
confirm next_asr c p n =
    if str_eq c.state "ready" && is_asr c.asr_model next_asr
    then goes tt p n
    else fails (switch_error c) p n

abbrev pub stop_if_active : Gateway → Page → Page
stop_if_active env p =
    if p.is_active
    then record p { client = stop "model-switch" env.connected p.client; is_active = false }
    else p

-- The `try` block up to the start of a new session, from its end.
unfoldable pub ready_then_confirmed :
    Gateway → AsrModelId → ActiveModels → Page → ℕ → Flow (Unit {0})
unfolding await_ready confirm
ready_then_confirmed env next_asr c p n =
    await_ready env 120 c p n >>= λ d q k. confirm next_asr d q k

unfoldable pub activated_then_ready :
    Gateway → AsrModelId → CorrectionModelId → Page → ℕ → Flow (Unit {0})
unfolding ready_then_confirmed
activated_then_ready env next_asr next_correction p n =
    noted (env.activate next_asr next_correction) p n >>= λ c q k.
    ready_then_confirmed env next_asr c q k

unfoldable pub switch_models : Gateway → AsrModelId → CorrectionModelId → Page → Flow (Unit {0})
unfolding await_release activated_then_ready
switch_models env next_asr next_correction p =
    await_release env 120 (dispatch model_switched (stop_if_active env p)) 0 >>= λ released q k.
    activated_then_ready env next_asr next_correction q k

-- The `catch` block.
abbrev pub roll_back : Shown → AsrModelId → CorrectionModelId → Answer ActiveModels → Page → Page
roll_back cause asr correction (throws other) p = record p {
  asr_model = asr;
  correction_model = correction;
  shown_error = some cause;
}
roll_back cause asr correction (gives c) p = record p {
  catalog = some c;
  asr_model = or_else c.asr_model asr;
  correction_model = c.correction_model;
  shown_error = some cause;
}

abbrev pub end_switch : Page → Page
end_switch p = record p { switching = false; busy = false }

abbrev pub same_selection : AsrModelId → CorrectionModelId → Page → Bool
same_selection a c p = same_asr a p.asr_model && same_correction c p.correction_model

abbrev pub begin_switch : AsrModelId → CorrectionModelId → Page → Page
begin_switch a c p = record p {
  switching = true;
  busy = true;
  shown_error = none;
  asr_model = a;
  correction_model = c;
}

abbrev pub finish_switch :
    Gateway
    → Bool
    → (next_asr : AsrModelId) (next_correction : CorrectionModelId)
    → (asr : AsrModelId) (correction : CorrectionModelId) → Flow (Unit {0})
    → Page
finish_switch env resume next_asr next_correction asr correction (goes done p n) =
    end_switch
      (if resume then (create_and_start false next_asr next_correction env.opening p).0 else p)
finish_switch env resume next_asr next_correction asr correction (fails cause p n) =
    end_switch (roll_back cause asr correction (env.catalog n) p)

unfoldable pub change_models : Gateway → AsrModelId → CorrectionModelId → Page → Page
unfolding switch_models create_and_start
change_models env next_asr next_correction p =
    let switched =
      finish_switch env (p.is_active && p.gate.is_ready) next_asr next_correction p.asr_model
        p.correction_model
        (switch_models env next_asr next_correction (begin_switch next_asr next_correction p)) in
    if p.switching || p.resource_busy || same_selection next_asr next_correction p
    then p
    else switched
