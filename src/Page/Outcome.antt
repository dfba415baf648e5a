-- ===== src/Page/Outcome.antt =====
-- frontend/realtime/src/App.tsx: how a switch of models ends.
use mathlib.Core.Path.{subst}
use agent_speak.Base.{
  ℕ, zero, suc, String, Bool, true, false, ◌&&◌, ◌||◌, none, some, if◌then◌else◌, or_else, includes,
  ◌≡◌, refl, sym, ap, ◌∙◌, arith, ◌⊎◌, inl, inr, str_eq, Bool-cases,
}
use agent_speak.Realtime.Types.{model_switched}
use agent_speak.Realtime.Reducer.{RealtimeState, realtime_reducer}
use agent_speak.Realtime.Rows.{row_of, row_of-model_switched}
use agent_speak.Models.Presentation.{AsrModelId, CorrectionModelId, ActiveModels, is_asr}
use agent_speak.Page.{
  Shown, Answer, gives, throws, Page, Opening, dispatch, create_and_start, start_session,
  after_start,
}
use agent_speak.Devices.Client.{World, Started, active, rejected, broken, start}
use agent_speak.Models.Speech.{SpeechLanguage}
use agent_speak.Page.Switch.{
  Gateway, Flow, goes, fails, ◌>>=◌, noted, is_leased, await_release, await_ready, has_ended,
  confirm, stop_if_active, ready_then_confirmed, activated_then_ready, switch_models, roll_back,
  begin_switch, finish_switch, change_models, end_switch, same_selection,
}
use agent_speak.Page.Flows.{page_of, switch_models-Keeps}

abbrev pub refuses : AsrModelId → CorrectionModelId → Page → Bool
refuses asr correction p = p.switching || p.resource_busy || same_selection asr correction p

abbrev switched : Gateway → AsrModelId → CorrectionModelId → Page → Page
switched env asr correction p =
    finish_switch env (p.is_active && p.gate.is_ready) asr correction p.asr_model p.correction_model
      (switch_models env asr correction (begin_switch asr correction p))

change_models-switched :
    (env : Gateway) (asr : AsrModelId) (correction : CorrectionModelId) (p : Page)
    → refuses asr correction p ≡ false
    → change_models env asr correction p ≡ switched env asr correction p
unfolding change_models
change_models-switched env asr correction p h = rw h refl

-- What a flow that has not failed says of its page.
abbrev Ends {ℓ} : {Found : Type ℓ} → (Found → Page → Type 0) → Flow Found → Type 0
Ends P (goes found p n) = P found p
Ends P (fails cause p n) = Unit

bind-Ends {ℓ κ} :
    {Found : Type ℓ} {Kept : Type κ} (P : Found → Page → Type 0) (Q : Kept → Page → Type 0)
    (f : Flow Found) (next : Found → Page → ℕ → Flow Kept)
    → Ends P f
    → ((found : Found) (q : Page) (n : ℕ) → P found q → Ends Q (next found q n))
    → Ends Q (f >>= next)
bind-Ends P Q (goes found p n) next s k = k found p n s
bind-Ends P Q (fails cause p n) next s k = tt

if-Ends {ℓ} :
    {Found : Type ℓ} (P : Found → Page → Type 0) (b : Bool) (f g : Flow Found)
    → Ends P f
    → Ends P g
    → Ends P (if b then f else g)
if-Ends P true f g x y = x
if-Ends P false f g x y = y

-- The models that the page has selected, and the catalog that it has seen last.
abbrev Selected : AsrModelId → CorrectionModelId → Page → Type 0
Selected asr correction p = (p.asr_model ≡ asr) × (p.correction_model ≡ correction)

abbrev Seen : AsrModelId → CorrectionModelId → ActiveModels → Page → Type 0
Seen asr correction c p = (p.catalog ≡ some c) × Selected asr correction p

noted-Ends :
    (asr : AsrModelId) (correction : CorrectionModelId) (a : Answer ActiveModels) (p : Page) (n : ℕ)
    → Selected asr correction p
    → Ends (Seen asr correction) (noted a p n)
noted-Ends asr correction (gives c) p n s = (refl, s)
noted-Ends asr correction (throws cause) p n s = tt

await_release-Ends :
    (env : Gateway) (asr : AsrModelId) (correction : CorrectionModelId) (attempts : ℕ) (p : Page)
    (n : ℕ)
    → Selected asr correction p
    → Ends (λ u q. Selected asr correction q) (await_release env attempts p n)
unfolding await_release
await_release-Ends env asr correction zero p n s = s
await_release-Ends env asr correction (suc attempts) p n s =
    bind-Ends (Seen asr correction) (λ u q. Selected asr correction q)
      (noted (env.catalog n) p (suc n)) _ (noted-Ends asr correction (env.catalog n) p (suc n) s)
      (λ c r k t.
        if-Ends (λ u q. Selected asr correction q) (is_leased c.leased_by) _ _
          (await_release-Ends env asr correction attempts r k t.1) t.1)

await_ready-Ends :
    (env : Gateway) (asr : AsrModelId) (correction : CorrectionModelId) (attempts : ℕ)
    (c : ActiveModels) (p : Page) (n : ℕ)
    → Seen asr correction c p
    → Ends (Seen asr correction) (await_ready env attempts c p n)
unfolding await_ready
await_ready-Ends env asr correction zero c p n s = s
await_ready-Ends env asr correction (suc attempts) c p n s =
    if-Ends (Seen asr correction) (str_eq c.state "ready") _ _ s (
      bind-Ends (Seen asr correction) (Seen asr correction) (noted (env.catalog n) p (suc n)) _
        (noted-Ends asr correction (env.catalog n) p (suc n) s.1)
        (λ d r k t.
          if-Ends (Seen asr correction) (has_ended d) _ _ t
            (await_ready-Ends env asr correction attempts d r k t)))

-- The last catalog reports the chosen recognition model as ready.
abbrev pub Confirmed : AsrModelId → CorrectionModelId → Page → Type 0
Confirmed asr correction p =
    (c : ActiveModels) × (p.catalog ≡ some c)
    × (str_eq c.state "ready" ≡ true)
    × (is_asr c.asr_model asr ≡ true)
    × (p.asr_model ≡ asr)
    × (p.correction_model ≡ correction)

confirm-Ends :
    (asr : AsrModelId) (correction : CorrectionModelId) (c : ActiveModels) (p : Page) (n : ℕ)
    → Seen asr correction c p
    → Ends (λ u q. Confirmed asr correction q) (confirm asr c p n)
unfolding confirm
confirm-Ends asr correction c p n s =
    elim (Bool-cases (str_eq c.state "ready" && is_asr c.asr_model asr)) [
      | inl e ↦ rw e (c, s.0, ground arith, ground arith, s.1.0, s.1.1)
      | inr e ↦ rw e tt
    ]

switch_models-Ends :
    (env : Gateway) (asr : AsrModelId) (correction : CorrectionModelId) (p : Page)
    → Selected asr correction (stop_if_active env p)
    → Ends (λ u q. Confirmed asr correction q) (switch_models env asr correction p)
unfolding switch_models activated_then_ready ready_then_confirmed
switch_models-Ends env asr correction p s =
    let Done : Unit {0} → Page → Type 0 = λ u q. Confirmed asr correction q in
    bind-Ends (λ u q. Selected asr correction q) Done
      (await_release env 120 (dispatch model_switched (stop_if_active env p)) 0) _
      (await_release-Ends env asr correction 120 (dispatch model_switched (stop_if_active env p)) 0
        s)
      (λ u q n t.
        bind-Ends (Seen asr correction) Done (noted (env.activate asr correction) q n) _
          (noted-Ends asr correction (env.activate asr correction) q n t)
          (λ c r k v.
            bind-Ends (Seen asr correction) Done (await_ready env 120 c r k) _
              (await_ready-Ends env asr correction 120 c r k v)
              (λ d r k v. confirm-Ends asr correction d r k v)))

stopped-Selected :
    (env : Gateway) (asr : AsrModelId) (correction : CorrectionModelId) (p : Page)
    → Selected asr correction (stop_if_active env (begin_switch asr correction p))
stopped-Selected env asr correction p = ground arith

-- A new session leaves the catalog, the selection and the transcript as they are.
record SameModels (p q : Page) : Type 0 where
  same_catalog : q.catalog ≡ p.catalog
  same_asr : q.asr_model ≡ p.asr_model
  same_correction_model : q.correction_model ≡ p.correction_model
  same_state : q.state ≡ p.state

after_start-SameModels :
    (cause : String) (r : World × Started) (p : Page) → SameModels p (after_start cause r p).0
after_start-SameModels cause (w, active) p = record {
  same_catalog = refl;
  same_asr = refl;
  same_correction_model = refl;
  same_state = refl;
}
after_start-SameModels cause (w, rejected e) p = record {
  same_catalog = refl;
  same_asr = refl;
  same_correction_model = refl;
  same_state = refl;
}
after_start-SameModels cause (w, broken) p = record {
  same_catalog = refl;
  same_asr = refl;
  same_correction_model = refl;
  same_state = refl;
}

start_session-SameModels :
    (o : Opening) (p : Page) (session : Answer (String × SpeechLanguage))
    → SameModels p (start_session o p session).0
start_session-SameModels o p (throws cause) = record {
  same_catalog = refl;
  same_asr = refl;
  same_correction_model = refl;
  same_state = refl;
}
start_session-SameModels o p (gives (id, language)) =
    let q = record p { session_id = id; locked_language = some language } in
    let s = after_start-SameModels o.cause (start o.stream o.context o.socket o.fate p.client) q in
    record {
      same_catalog = s.same_catalog;
      same_asr = s.same_asr;
      same_correction_model = s.same_correction_model;
      same_state = s.same_state;
    }

resumed : Gateway → Bool → AsrModelId → CorrectionModelId → Page → Page
unfolding create_and_start
resumed env resume asr correction p =
    if resume then (create_and_start false asr correction env.opening p).0 else p

resumed-SameModels :
    (env : Gateway) (resume : Bool) (asr : AsrModelId) (correction : CorrectionModelId) (p : Page)
    → SameModels p (resumed env resume asr correction p)
unfolding resumed create_and_start
resumed-SameModels env true asr correction p = start_session-SameModels env.opening p _
resumed-SameModels env false asr correction p = record {
  same_catalog = refl;
  same_asr = refl;
  same_correction_model = refl;
  same_state = refl;
}

SameModels-Confirmed :
    (asr : AsrModelId) (correction : CorrectionModelId) (p q : Page)
    → SameModels p q
    → Confirmed asr correction p
    → Confirmed asr correction q
SameModels-Confirmed asr correction p q s (c, seen, ready, loaded, a, k) =
    (c, s.same_catalog ∙ seen, ready, loaded, s.same_asr ∙ a, s.same_correction_model ∙ k)

-- After a failure: the error is shown, and the selection is what the gateway confirms, or else what it
-- was before.
abbrev pub RolledBack : Page → Page → Type 0
RolledBack p q =
    ((cause : Shown) × (q.shown_error ≡ some cause))
    × (((c : ActiveModels) × (q.catalog ≡ some c)
          × (q.asr_model ≡ or_else c.asr_model p.asr_model)
          × (q.correction_model ≡ c.correction_model))
        ⊎ ((q.asr_model ≡ p.asr_model) × (q.correction_model ≡ p.correction_model)))

abbrev pub Switched : AsrModelId → CorrectionModelId → Page → Page → Type 0
Switched asr correction p q =
    (q.switching ≡ false) × (q.busy ≡ false) × (Confirmed asr correction q ⊎ RolledBack p q)

finish_switch-Switched :
    (env : Gateway) (resume : Bool) (asr : AsrModelId) (correction : CorrectionModelId) (p : Page)
    (f : Flow (Unit {0}))
    → Ends (λ u q. Confirmed asr correction q) f
    → Switched asr correction p
        (finish_switch env resume asr correction p.asr_model p.correction_model f)
unfolding resumed
finish_switch-Switched env resume asr correction p (goes u q n) h =
    let (c, seen, is_ready, loaded, a, k) =
      SameModels-Confirmed asr correction q (resumed env resume asr correction q)
        (resumed-SameModels env resume asr correction q) h in
    (refl, refl, inl (c, seen, is_ready, loaded, a, k))
finish_switch-Switched env resume asr correction p (fails cause q n) h = rolled (env.catalog n)
  where
    rolled :
        (a : Answer ActiveModels)
        → Switched asr correction p
            (end_switch (roll_back cause p.asr_model p.correction_model a q))
    rolled (gives c) = (refl, refl, inr ((cause, refl), inl (c, refl, refl, refl)))
    rolled (throws other) = (refl, refl, inr ((cause, refl), inr (refl, refl)))

-- A switch that is not refused ends with the page neither busy nor switching, and either the last
-- catalog says that the chosen recognition model is ready and the choice stands, or an error is shown
-- and the choice is the one that the gateway confirms or the one from before.
pub change_models-Switched :
    (env : Gateway) (asr : AsrModelId) (correction : CorrectionModelId) (p : Page)
    → refuses asr correction p ≡ false
    → Switched asr correction p (change_models env asr correction p)
change_models-Switched env asr correction p h =
    subst (Switched asr correction p) (sym (change_models-switched env asr correction p h)) (
      finish_switch-Switched env (p.is_active && p.gate.is_ready) asr correction p
        (switch_models env asr correction (begin_switch asr correction p))
        (switch_models-Ends env asr correction (begin_switch asr correction p)
          (stopped-Selected env asr correction p)))

finish_switch-state :
    (env : Gateway) (resume : Bool) (next_asr : AsrModelId) (next_correction : CorrectionModelId)
    (asr : AsrModelId) (correction : CorrectionModelId) (s : RealtimeState) (f : Flow (Unit {0}))
    → (page_of f).state ≡ s
    → (finish_switch env resume next_asr next_correction asr correction f).state ≡ s
unfolding resumed
finish_switch-state env resume next_asr next_correction asr correction s (goes u q n) h =
    (resumed-SameModels env resume next_asr next_correction q).same_state ∙ h
finish_switch-state env resume next_asr next_correction asr correction s (fails cause q n) h =
    rolled (env.catalog n)
  where
    rolled : (a : Answer ActiveModels) → (end_switch (roll_back cause asr correction a q)).state ≡ s
    rolled (gives c) = h
    rolled (throws other) = h

stopped-state : (env : Gateway) (p : Page) → (stop_if_active env p).state ≡ p.state
stopped-state env p = ground arith

-- However a switch that is not refused ends, the transcript keeps the rows of the utterances that are
-- complete, unchanged, and no others.
pub row_of-change_models :
    (env : Gateway) (asr : AsrModelId) (correction : CorrectionModelId) (p : Page) (k : String)
    → refuses asr correction p ≡ false
    → row_of k (change_models env asr correction p).state.rows
      ≡ (if includes p.state.completed_utterance_ids k then row_of k p.state.rows else none)
row_of-change_models env asr correction p k h =
    let begun = begin_switch asr correction p in
    let s = realtime_reducer p.state model_switched in
    ap (λ q. row_of k q.state.rows) (change_models-switched env asr correction p h)
    ∙ ap (λ t. row_of k t.rows)
        (finish_switch-state env (p.is_active && p.gate.is_ready) asr correction p.asr_model
          p.correction_model s (switch_models env asr correction begun)
          (switch_models-Keeps (λ q. q.state ≡ s) (λ c q e. e) env asr correction begun
            (ap (λ t. realtime_reducer t model_switched) (stopped-state env begun))))
    ∙ row_of-model_switched p.state k
