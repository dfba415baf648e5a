-- ===== src/Page/Flows.antt =====
-- frontend/realtime/src/App.tsx: what a switch of models keeps, up to its last check. The loops and the
-- activation change nothing of the page but the catalog.
use agent_speak.Base.{ℕ, zero, suc, Bool, true, false, ◌&&◌, if◌then◌else◌, str_eq}
use agent_speak.Realtime.Types.{model_switched}
use agent_speak.Models.Presentation.{AsrModelId, CorrectionModelId, ActiveModels, is_asr}
use agent_speak.Page.{Answer, gives, throws, Page, dispatch}
use agent_speak.Page.Switch.{
  ready_then_confirmed, activated_then_ready, Gateway, Flow, goes, fails, ◌>>=◌, noted, is_leased,
  await_release, await_ready, has_ended, confirm, stop_if_active, saw, switch_models, switch_error,
}

abbrev pub page_of {ℓ} : {Found : Type ℓ} → Flow Found → Page
page_of (goes found p n) = p
page_of (fails cause p n) = p

module _ (Keeps : Page → Type 0)
    (keeps : (c : ActiveModels) (p : Page) → Keeps p → Keeps (saw c p)) where
  pub bind-Keeps {ℓ κ} :
      {Found : Type ℓ} {Kept : Type κ} (f : Flow Found) (next : Found → Page → ℕ → Flow Kept)
      → Keeps (page_of f)
      → ((found : Found) (q : Page) (n : ℕ) → Keeps q → Keeps (page_of (next found q n)))
      → Keeps (page_of (f >>= next))
  bind-Keeps (goes found q n) next s k = k found q n s
  bind-Keeps (fails cause q n) next s k = s

  noted-Keeps :
      (a : Answer ActiveModels) (p : Page) (n : ℕ) → Keeps p → Keeps (page_of (noted a p n))
  noted-Keeps (gives c) p n s = keeps c p s
  noted-Keeps (throws cause) p n s = s

  if-Keeps {ℓ} :
      {Found : Type ℓ} (b : Bool) (f g : Flow Found)
      → Keeps (page_of f)
      → Keeps (page_of g)
      → Keeps (page_of (if b then f else g))
  if-Keeps true f g x y = x
  if-Keeps false f g x y = y

  await_release-Keeps :
      (env : Gateway) (attempts : ℕ) (p : Page) (n : ℕ)
      → Keeps p
      → Keeps (page_of (await_release env attempts p n))
  unfolding await_release
  await_release-Keeps env zero p n s = s
  await_release-Keeps env (suc attempts) p n s =
      bind-Keeps (noted (env.catalog n) p (suc n)) _ (noted-Keeps (env.catalog n) p (suc n) s)
        (λ c r k t. if-Keeps (is_leased c.leased_by) _ _ (await_release-Keeps env attempts r k t) t)

  await_ready-Keeps :
      (env : Gateway) (attempts : ℕ) (c : ActiveModels) (p : Page) (n : ℕ)
      → Keeps p
      → Keeps (page_of (await_ready env attempts c p n))
  unfolding await_ready
  await_ready-Keeps env zero c p n s = s
  await_ready-Keeps env (suc attempts) c p n s = if-Keeps (str_eq c.state "ready") _ _ s (
      bind-Keeps (noted (env.catalog n) p (suc n)) _ (noted-Keeps (env.catalog n) p (suc n) s)
        (λ d r k t. if-Keeps (has_ended d) _ _ t (await_ready-Keeps env attempts d r k t)))

  confirm-Keeps :
      (asr : AsrModelId) (c : ActiveModels) (p : Page) (n : ℕ)
      → Keeps p
      → Keeps (page_of (confirm asr c p n))
  unfolding confirm
  confirm-Keeps asr c p n s =
      if-Keeps (str_eq c.state "ready" && is_asr c.asr_model asr) (goes tt p n)
        (fails (switch_error c) p n) s s

  ready_then_confirmed-Keeps :
      (env : Gateway) (asr : AsrModelId) (c : ActiveModels) (p : Page) (n : ℕ)
      → Keeps p
      → Keeps (page_of (ready_then_confirmed env asr c p n))
  unfolding ready_then_confirmed
  ready_then_confirmed-Keeps env asr c p n s =
      bind-Keeps (await_ready env 120 c p n) _ (await_ready-Keeps env 120 c p n s)
        (λ d r k t. confirm-Keeps asr d r k t)

  activated_then_ready-Keeps :
      (env : Gateway) (asr : AsrModelId) (correction : CorrectionModelId) (p : Page) (n : ℕ)
      → Keeps p
      → Keeps (page_of (activated_then_ready env asr correction p n))
  unfolding activated_then_ready
  activated_then_ready-Keeps env asr correction p n s =
      bind-Keeps (noted (env.activate asr correction) p n) _
        (noted-Keeps (env.activate asr correction) p n s)
        (λ c r k t. ready_then_confirmed-Keeps env asr c r k t)

  -- What the page has once the client is stopped and the rows are kept, it has at the end.
  pub switch_models-Keeps :
      (env : Gateway) (asr : AsrModelId) (correction : CorrectionModelId) (p : Page)
      → Keeps (dispatch model_switched (stop_if_active env p))
      → Keeps (page_of (switch_models env asr correction p))
  unfolding switch_models
  switch_models-Keeps env asr correction p s =
      let q = dispatch model_switched (stop_if_active env p) in
      bind-Keeps (await_release env 120 q 0) _ (await_release-Keeps env 120 q 0 s)
        (λ u r n t. activated_then_ready-Keeps env asr correction r n t)
