-- ===== src/Models/Presentation.antt =====
-- frontend/realtime/src/models.ts and modelPresentation.ts: the catalog of models, and what the page
-- shows of a switch between them.
use agent_speak.Base.{
  String, Bool, true, false, not, ◌&&◌, ◌||◌, Option, none, some, str_eq, if◌then◌else◌, ◌≡◌, arith,
  ◌↔◌,
}

pub data AsrModelId : Type 0 where
  qwen3_asr breeze_asr faster_whisper : AsrModelId

pub data CorrectionModelId : Type 0 where
  qwen_correction disabled : CorrectionModelId

-- The model that is active, as the service reports it.
pub record ActiveModels : Type 0 where
  pub asr_model : Option AsrModelId
  pub correction_model : CorrectionModelId
  pub requested_asr_model : Option AsrModelId
  pub state : String
  pub leased_by : Option String
  pub device : String
  pub error_code : Option String

pub data ModelLifecycle : Type 0 where
  ready loading warming unloading rollback failed idle unavailable : ModelLifecycle

pub record ModelPresentation : Type 0 where
  pub asr_model : AsrModelId
  pub correction_model : CorrectionModelId
  pub device : String
  pub lifecycle : ModelLifecycle
  pub switching : Bool
  pub is_ready : Bool

-- A state that is no lifecycle state counts as unavailable.
unfoldable pub lifecycle_of : String → ModelLifecycle
lifecycle_of state =
    if str_eq state "ready"
    then ready
    else if str_eq state "loading"
    then loading
    else if str_eq state "warming"
    then warming
    else if str_eq state "unloading"
    then unloading
    else if str_eq state "rollback"
    then rollback
    else if str_eq state "failed"
    then failed
    else if str_eq state "idle"
    then idle
    else unavailable

abbrev pub is_transitional : ModelLifecycle → Bool
is_transitional loading = true
is_transitional warming = true
is_transitional unloading = true
is_transitional rollback = true
is_transitional idle = true
is_transitional _ = false

abbrev pub is_lifecycle_ready : ModelLifecycle → Bool
is_lifecycle_ready ready = true
is_lifecycle_ready _ = false

-- `lifecycle !== 'failed' && lifecycle !== 'unavailable'`
abbrev pub can_reach_target : ModelLifecycle → Bool
can_reach_target failed = false
can_reach_target unavailable = false
can_reach_target _ = true

abbrev pub same_asr : AsrModelId → AsrModelId → Bool
same_asr qwen3_asr qwen3_asr = true
same_asr breeze_asr breeze_asr = true
same_asr faster_whisper faster_whisper = true
same_asr _ _ = false

abbrev pub same_correction : CorrectionModelId → CorrectionModelId → Bool
same_correction qwen_correction qwen_correction = true
same_correction disabled disabled = true
same_correction _ _ = false

abbrev pub is_asr : Option AsrModelId → AsrModelId → Bool
is_asr none m = false
is_asr (some a) m = same_asr a m

abbrev pub is_unset : Option AsrModelId → Bool
is_unset none = true
is_unset (some a) = false

unfoldable pub derive_model_presentation :
    ActiveModels → AsrModelId → CorrectionModelId → Bool → ModelPresentation
derive_model_presentation active selected_asr selected_correction switching_requested =
    let lifecycle = lifecycle_of active.state in
    let runtime_matches =
      is_asr active.asr_model selected_asr
      && same_correction active.correction_model selected_correction
      && is_unset active.requested_asr_model in
    let shown_ready = not switching_requested && is_lifecycle_ready lifecycle && runtime_matches in
    let target_pending =
      can_reach_target lifecycle
      && (not (is_unset active.requested_asr_model)
          || not (is_asr active.asr_model selected_asr)) in
    record {
      asr_model = selected_asr;
      correction_model = selected_correction;
      device = active.device;
      lifecycle = lifecycle;
      switching =
          not shown_ready && (switching_requested || is_transitional lifecycle || target_pending);
      is_ready = shown_ready;
    }

same_asr_iff : (a b : AsrModelId) → (same_asr a b ≡ true) ↔ (a ≡ b)
same_asr_iff a b = ground arith

same_correction_iff : (a b : CorrectionModelId) → (same_correction a b ≡ true) ↔ (a ≡ b)
same_correction_iff a b = ground arith

-- The page shows the models as ready exactly when no switch was asked for, the service reports that
-- it is ready and that no other model is requested, and the active models are the selected ones.
is_ready_iff :
    (active : ActiveModels) (a : AsrModelId) (c : CorrectionModelId) (switching : Bool)
    → ((derive_model_presentation active a c switching).is_ready ≡ true) ↔ (
        (switching ≡ false)
        × (lifecycle_of active.state ≡ ready)
        × (active.asr_model ≡ some a)
        × (active.correction_model ≡ c)
        × (active.requested_asr_model ≡ none))
unfolding derive_model_presentation
is_ready_iff active a c switching = (
  λ h. is_ready-means active a c switching h,
  λ h. ground (arith, same_asr_iff a a, same_correction_iff c c),
)
  where
    is_ready-means :
        (active : ActiveModels) (a : AsrModelId) (c : CorrectionModelId) (switching : Bool)
        → (derive_model_presentation active a c switching).is_ready ≡ true
        → (switching ≡ false)
          × (lifecycle_of active.state ≡ ready)
          × (active.asr_model ≡ some a)
          × (active.correction_model ≡ c)
          × (active.requested_asr_model ≡ none)
    is_ready-means active a c switching h = ground arith

-- Ready and switching are never shown together.
pub ready_excludes_switching :
    (active : ActiveModels) (a : AsrModelId) (c : CorrectionModelId) (switching : Bool)
    → let shown = derive_model_presentation active a c switching in
      (shown.is_ready && shown.switching) ≡ false
unfolding derive_model_presentation
ready_excludes_switching active a c switching = ground arith

-- Once the service reports that it has failed or a state that is unknown, the models are not shown as
-- ready, and they are shown as switching only while the page itself is switching.
pub switching_unreachable :
    (active : ActiveModels) (a : AsrModelId) (c : CorrectionModelId) (switching : Bool)
    → can_reach_target (lifecycle_of active.state) ≡ false
    → let shown = derive_model_presentation active a c switching in
      (shown.is_ready ≡ false) × (shown.switching ≡ switching)
unfolding derive_model_presentation
switching_unreachable active a c switching h = ground arith
